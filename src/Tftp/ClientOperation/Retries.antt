-- ===== src/Tftp/ClientOperation/Retries.antt =====
-- How often a failing operation is retried.
use arinc_615a_cli_tool_suit.Base.{
  All, Bool, List, [], ap, arith, false, length, le→ltb, lt→ltb, refl, replicate, suc, true, zero,
  ℕ, ◌%◌, ◌++◌, ◌+◌, ◌<◌, ◌∷◌, ◌≡◌,
}
use arinc_615a_cli_tool_suit.Tftp.{
  ErrorInformation, ErrorMessageType, TftpTransferStatus, abort_message, communication_error,
  invalid_message, is_invalid, tftp_aborted, tftp_communication_error,
  tftp_option_negotiation_error, tftp_request_error, tftp_successful, tftp_transfer_error,
  wait_message,
}
use arinc_615a_cli_tool_suit.Tftp.ClientOperation.{
  ClientOperation, Outcome, completes, handle_completion, or_retry, rejected, requests, retry,
}
use arinc_615a_cli_tool_suit.Tftp.ErrorMessage.{error_message_type}

-- The statuses that are not handled: they lead to a retry.
abbrev pub is_failure : TftpTransferStatus → ErrorInformation → Bool
is_failure tftp_communication_error information = true
is_failure tftp_option_negotiation_error information = true
is_failure tftp_transfer_error information = true
is_failure tftp_request_error information = is_invalid (error_message_type information)
is_failure _ information = false

no_message :
    (s : ClientOperation) (t : ErrorMessageType)
    → is_invalid t ≡ true
    → or_retry s (rejected s t) ≡ retry s
unfolding rejected or_retry
no_message s invalid_message h = refl
no_message s abort_message h = cc
no_message s wait_message h = cc

pub handle_failure :
    (status : TftpTransferStatus) (information : ErrorInformation) (s : ClientOperation)
    → is_failure status information ≡ true
    → handle_completion status information s
      ≡ retry (record s { error_information_v = information; operation_v = false })
unfolding handle_completion
handle_failure tftp_communication_error information s h = refl
handle_failure tftp_option_negotiation_error information s h = refl
handle_failure tftp_transfer_error information s h = refl
handle_failure tftp_request_error information s h =
    let s' : ClientOperation = record s {
      error_information_v = information;
      operation_v = false;
    } in
    no_message s' (error_message_type information) h
handle_failure tftp_successful information s h = cc
handle_failure tftp_aborted information s h = cc

retry_again :
    (s : ClientOperation)
    → s.retries_v < s.dlp_retries_v
    → s.dlp_retries_v < 65536
    → retry s ≡ (record s { retries_v = s.retries_v + 1; operation_v = true }, requests ∷ [])
unfolding retry
retry_again s h k =
    let next : (s.retries_v + 1) % 65536 ≡ s.retries_v + 1 = omega arith in
    rw (next, le→ltb s.dlp_retries_v (s.retries_v + 1) (omega arith)) refl

retry_exceeded :
    (s : ClientOperation)
    → s.operation_completion_handler_v ≡ true
    → s.retries_v ≡ s.dlp_retries_v
    → s.dlp_retries_v < 65535
    → retry s ≡ (record s { retries_v = s.retries_v + 1 }, completes communication_error ∷ [])
unfolding retry
retry_exceeded s n h k =
    let next : (s.retries_v + 1) % 65536 ≡ s.retries_v + 1 = omega arith in
    rw (next, lt→ltb s.dlp_retries_v (s.retries_v + 1) (omega arith), n) refl

retry_always :
    (s : ClientOperation)
    → s.dlp_retries_v ≡ 65535
    → retry s
      ≡ (record s { retries_v = (s.retries_v + 1) % 65536; operation_v = true }, requests ∷ [])
unfolding retry
retry_always s h = rw (le→ltb s.dlp_retries_v ((s.retries_v + 1) % 65536) (omega arith)) refl

-- A sequence of completions, each of the operation that the last one requested.
abbrev pub Completions : Type 0
Completions = List (TftpTransferStatus × ErrorInformation)

unfoldable pub complete_all : Completions → ClientOperation → Outcome
complete_all [] s = (s, [])
complete_all ((status, information) ∷ completions) s =
    let outcome = handle_completion status information s in
    let rest = complete_all completions outcome.0 in (rest.0, outcome.1 ++ rest.1)

abbrev pub AllFail : Completions → Type 0
AllFail completions = All (λ c. is_failure c.0 c.1 ≡ true) completions

-- An operation with a completion handler and a limit below 65535, which has `left` retries left: when
-- it fails `left + 1` times in a row, it is requested again `left` times, and then a communication error
-- is notified and no TFTP operation stands.
pub failures_exhaust_retries :
    (left : ℕ) (completions : Completions) (s : ClientOperation)
    → s.operation_completion_handler_v ≡ true
    → s.retries_v + left ≡ s.dlp_retries_v
    → s.dlp_retries_v < 65535
    → length completions ≡ left + 1
    → AllFail completions
    → ((complete_all completions s).1
        ≡ replicate left requests ++ completes communication_error ∷ [])
      × ((complete_all completions s).0.operation_v ≡ false)
unfolding complete_all
failures_exhaust_retries left [] s n c d l f = absurd (omega arith)
failures_exhaust_retries zero (c ∷ []) s n r d l f =
    let s' : ClientOperation = record s { error_information_v = c.1; operation_v = false } in
    rw (handle_failure c.0 c.1 s f.0, retry_exceeded s' n (omega arith) d) (refl, refl)
failures_exhaust_retries zero (c ∷ c' ∷ completions) s n r d l f = absurd (omega arith)
failures_exhaust_retries (suc left) (c ∷ completions) s n r d l f =
    let s' : ClientOperation = record s { error_information_v = c.1; operation_v = false } in
    let (acts, ends) =
      failures_exhaust_retries left completions
        (record s' { retries_v = s.retries_v + 1; operation_v = true }) n (omega arith) d
        (omega arith) f.1 in
    rw (handle_failure c.0 c.1 s f.0, retry_again s' (omega arith) (omega arith))
      (ap (◌∷◌ requests) acts, ends)

-- With a limit of 65535 an operation is requested again after each failure, however often it fails in
-- a row, and no completion is notified.
pub failures_never_end :
    (completions : Completions) (s : ClientOperation)
    → s.dlp_retries_v ≡ 65535
    → AllFail completions
    → ((complete_all completions s).1 ≡ replicate (length completions) requests)
unfolding complete_all
failures_never_end [] s d f = refl
failures_never_end (c ∷ completions) s d f =
    let s' : ClientOperation = record s { error_information_v = c.1; operation_v = false } in
    rw (handle_failure c.0 c.1 s f.0, retry_always s' d)
      (ap (◌∷◌ requests) (
        failures_never_end completions
          (record s' { retries_v = (s.retries_v + 1) % 65536; operation_v = true }) d f.1))
