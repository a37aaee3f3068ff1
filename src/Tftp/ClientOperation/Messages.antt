-- ===== src/Tftp/ClientOperation/Messages.antt =====
-- How a client operation answers the WAIT and ABORT messages of the target.
use arinc_615a_cli_tool_suit.Base.{
  Bool, List, [], false, if◌then◌else◌, none, ok, refl, some, true, ℕ, ◌==◌, ◌||◌, ◌∷◌, ◌≡◌,
}
use arinc_615a_cli_tool_suit.Status.{
  StatusCode, code_value, invalid_status, operation_aborted_by_dlp, operation_aborted_by_operator,
  operation_accepted, operation_deferred, operation_in_progress_additional_info,
}
use arinc_615a_cli_tool_suit.Tftp.{
  ErrorInformation, aborted_by_dlp, aborted_by_operator, not_defined, tftp_request_error,
}
use arinc_615a_cli_tool_suit.Tftp.ClientOperation.{
  ClientOperation, Outcome, abort_reply, complete, defers, expired, handle_completion,
  handle_wait_timeout, or_retry, rejected, requests, retry, wait_reply, waiting,
}
use arinc_615a_cli_tool_suit.Tftp.ErrorMessage.{abort_encode, pos, wait_encode}
use arinc_615a_cli_tool_suit.Tftp.ErrorMessage.RoundTrip.{
  abort_decode-abort_encode, wait_message_lem,
}

-- A request that is rejected with a WAIT message, as it is written for a wait time, arms the timer with
-- that time and tells a user who has set a handler; when the timer expires, the operation is requested
-- again, and its retry counter is what it was before.
pub wait_message_defers :
    (wait_time : ℕ) (message : List ℕ) (s : ClientOperation)
    → wait_encode (pos wait_time) ≡ ok message
    → let outcome = handle_completion tftp_request_error (some (not_defined, message)) s in
      let again = handle_wait_timeout expired outcome.0 in
      (outcome.0.wait_timer_v ≡ waiting wait_time)
      × (outcome.0.operation_v ≡ false)
      × (outcome.1 ≡ (if s.operation_deferred_handler_v then defers wait_time ∷ [] else []))
      × (again.0.retries_v ≡ s.retries_v)
      × (again.1 ≡ requests ∷ [])
unfolding handle_completion rejected wait_reply or_retry handle_wait_timeout
wait_message_defers n message s h =
    let (decoded, kind) = wait_message_lem n message h in
    rw (kind, decoded) (refl, refl, refl, refl, refl)

-- How the operation goes on after the status code of an ABORT message.
unfoldable pub abort_outcome : StatusCode → ClientOperation → Outcome
abort_outcome operation_aborted_by_dlp s = complete s aborted_by_dlp
abort_outcome operation_aborted_by_operator s = complete s aborted_by_operator
abort_outcome _ s = retry s

by_code :
    (c : StatusCode) (b : Bool) (s : ClientOperation)
    → or_retry s (
        if b
        then abort_reply s (
            if code_value c == code_value operation_in_progress_additional_info
              || code_value c == code_value operation_deferred
            then invalid_status
            else c)
        else none)
      ≡ (if b then abort_outcome c s else retry s)
unfolding abort_reply or_retry abort_outcome
by_code c false s = refl
by_code operation_accepted true s = refl
by_code _ true s = refl

-- What an ABORT message of a status code ends in: an abort by the data load protocol or by the
-- operator is notified as that, if a completion handler is set; the other codes, and all while ABORT is not handled, lead to a retry.
pub abort_message_ends :
    (c : StatusCode) (s : ClientOperation)
    → let information : ErrorInformation = some (not_defined, abort_encode c) in
      let s' : ClientOperation = record s {
        error_information_v = information;
        operation_v = false;
      } in
      handle_completion tftp_request_error information s
      ≡ (if s.handle_abort_v then abort_outcome c s' else retry s')
unfolding handle_completion rejected abort_reply or_retry
abort_message_ends c s =
    rw ((abort_decode-abort_encode c).1, (abort_decode-abort_encode c).0)
      (by_code c s.handle_abort_v (record s {
        error_information_v = some (not_defined, abort_encode c);
        operation_v = false;
      }))
