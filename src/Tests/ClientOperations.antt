-- ===== src/Tests/ClientOperations.antt =====
-- TFTP client operations and their messages at concrete data.
use arinc_615a_cli_tool_suit.Base.{
  List, [], arith, false, none, ok, refl, some, starts_with, true, ℕ, ◌&&◌, ◌+◌, ◌∷◌, ◌≡◌, ◌≤◌, ◌⊎◌,
}
use arinc_615a_cli_tool_suit.Status.{operation_aborted_by_dlp}
use arinc_615a_cli_tool_suit.Tftp.{
  communication_error, not_defined, successful, tftp_communication_error, tftp_request_error,
  tftp_successful, tftp_transfer_error,
}
use arinc_615a_cli_tool_suit.Tftp.ClientOperation.{
  Action, ClientOperation, completes, defers, expired, handle_completion, handle_wait_timeout,
  or_retry, rejected, request, requests, unarmed, wait_reply, waiting,
}
use arinc_615a_cli_tool_suit.Tftp.ClientOperation.History.{every_request_is_answered}
use arinc_615a_cli_tool_suit.Tftp.ClientOperation.Messages.{
  abort_message_ends, abort_outcome, wait_message_defers,
}
use arinc_615a_cli_tool_suit.Tftp.ClientOperation.Retries.{
  Completions, complete_all, failures_exhaust_retries, failures_never_end,
}
use arinc_615a_cli_tool_suit.Tftp.ClientOperation.Steps.{
  Event, Runs, begin, handle, is_armed, operation_completion, outstanding, reports, starts, step,
  timeout, user_request,
}
use arinc_615a_cli_tool_suit.Tftp.ErrorMessage.{
  abort_encode, error_message_type, format_decimal, from_chars, pos, scan_digits, wait_decode,
  wait_encode,
}

abbrev idle : ClientOperation
idle = record {
  dlp_retries_v = 1;
  handle_abort_v = true;
  operation_deferred_handler_v = true;
  operation_completion_handler_v = true;
  retries_v = 0;
  operation_v = false;
  error_information_v = none;
  wait_timer_v = unarmed;
}

-- Requested, deferred by five seconds, requested again, and completed.
abbrev wait_5 : List ℕ
wait_5 = b'W' ∷ b'A' ∷ b'I' ∷ b'T' ∷ b':' ∷ b'5' ∷ []

abbrev story : List Event
story =
    user_request
    ∷ operation_completion tftp_request_error (some (not_defined, wait_5))
    ∷ timeout expired
    ∷ operation_completion tftp_successful none
    ∷ []

abbrev calls : List Action
calls = requests ∷ defers 5 ∷ requests ∷ completes successful ∷ []

told : Runs idle idle story calls
unfolding handle request handle_completion rejected or_retry wait_reply wait_decode from_chars
    scan_digits error_message_type starts_with handle_wait_timeout
told =
    step (operation_completion tftp_successful none)
      (step (timeout expired)
        (step (operation_completion tftp_request_error (some (not_defined, wait_5)))
          (step user_request begin (refl, refl)) refl)
        refl)
      refl

every_request_is_answered_example :
    (idle.operation_v && is_armed idle.wait_timer_v ≡ false)
    × ((outstanding idle ≡ 0) ⊎ (idle.retries_v ≤ idle.dlp_retries_v))
    × (outstanding idle + reports calls ≡ starts story)
every_request_is_answered_example = every_request_is_answered refl refl refl told

abbrev requested : ClientOperation
requested = record idle { operation_v = true }

abbrev two_failures : Completions
two_failures = (tftp_communication_error, none) ∷ (tftp_transfer_error, none) ∷ []

failures_exhaust_retries_example :
    ((complete_all two_failures requested).1 ≡ requests ∷ completes communication_error ∷ [])
    × ((complete_all two_failures requested).0.operation_v ≡ false)
failures_exhaust_retries_example =
    failures_exhaust_retries 1 two_failures requested refl refl (omega arith) refl
      (refl, (refl, tt))

abbrev patient : ClientOperation
patient = record requested { dlp_retries_v = 65535; retries_v = 65535 }

failures_never_end_example : (complete_all two_failures patient).1 ≡ requests ∷ requests ∷ []
failures_never_end_example = failures_never_end two_failures patient refl (refl, (refl, tt))

wait_5_written : wait_encode (pos 5) ≡ ok wait_5
unfolding wait_encode format_decimal
wait_5_written = refl

wait_message_defers_example :
    let outcome = handle_completion tftp_request_error (some (not_defined, wait_5)) requested in
    let again = handle_wait_timeout expired outcome.0 in
    (outcome.0.wait_timer_v ≡ waiting 5)
    × (outcome.0.operation_v ≡ false)
    × (outcome.1 ≡ defers 5 ∷ [])
    × (again.0.retries_v ≡ 0)
    × (again.1 ≡ requests ∷ [])
wait_message_defers_example = wait_message_defers 5 wait_5 requested wait_5_written

abort_message_ends_example :
    handle_completion tftp_request_error
      (some (not_defined, abort_encode operation_aborted_by_dlp))
      requested
    ≡ abort_outcome operation_aborted_by_dlp (record idle {
      error_information_v = some (not_defined, abort_encode operation_aborted_by_dlp);
    })
abort_message_ends_example = abort_message_ends operation_aborted_by_dlp requested
