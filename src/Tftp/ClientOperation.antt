-- ===== src/Tftp/ClientOperation.antt =====
-- lib/arinc_615a/tftp/clients/implementation/OperationImpl.cpp: a TFTP client operation with the
-- retries and the wait and abort handling of ARINC 615A. The handlers and the operations of the TFTP
-- library are outside: a call of one is an `Action`.
pub mod Steps
pub mod Progress
pub mod History
pub mod Retries
pub mod Messages
use arinc_615a_cli_tool_suit.Base.{
  Bool, List, Option, [], false, if◌then◌else◌, ltb, none, some, true, ℕ, ◌%◌, ◌+◌, ◌∷◌,
}
use arinc_615a_cli_tool_suit.Status.{
  StatusCode, operation_aborted_by_dlp, operation_aborted_by_operator,
}
use arinc_615a_cli_tool_suit.Tftp.{
  ErrorInformation, ErrorMessageType, TftpTransferStatus, TransferStatus, abort_message, aborted,
  aborted_by_dlp, aborted_by_operator, communication_error, invalid_message, successful,
  tftp_aborted, tftp_request_error, tftp_successful, wait_message,
}
use arinc_615a_cli_tool_suit.Tftp.ErrorMessage.{abort_decode, error_message_type, wait_decode}

-- The wait timer: whether a handler is pending, and whether it was cancelled.
pub data WaitTimer : Type 0 where
  unarmed cancelled : WaitTimer
  waiting : ℕ → WaitTimer

-- What the timer reports to its handler.
pub data TimerResult : Type 0 where
  expired operation_aborted timer_error : TimerResult

-- The calls to the outside.
pub data Action : Type 0 where
  -- `tftpOperation()` and its `request()`.
  requests aborts gracefully_aborts : Action
  completes : TransferStatus → Action
  defers : ℕ → Action

-- `operation_v` tells whether the pointer is set, and the `_handler_v` whether the handler is.
pub record ClientOperation : Type 0 where
  pub dlp_retries_v : ℕ
  pub handle_abort_v : Bool
  pub operation_deferred_handler_v : Bool
  pub operation_completion_handler_v : Bool
  pub retries_v : ℕ
  pub operation_v : Bool
  pub error_information_v : ErrorInformation
  pub wait_timer_v : WaitTimer

abbrev pub Outcome : Type 0
Outcome = ClientOperation × List Action

-- `waitTimerV.cancel()`.
abbrev pub cancel : WaitTimer → WaitTimer
cancel unarmed = unarmed
cancel cancelled = cancelled
cancel (waiting n) = cancelled

unfoldable pub request : ClientOperation → Outcome
request s = (record s { retries_v = 0; operation_v = true }, requests ∷ [])

unfoldable pub graceful_abort : ClientOperation → Outcome
graceful_abort s = (
  record s { wait_timer_v = cancel s.wait_timer_v },
  if s.operation_v then gracefully_aborts ∷ [] else [],
)

unfoldable pub abort : ClientOperation → Outcome
abort s =
    (record s { wait_timer_v = cancel s.wait_timer_v }, if s.operation_v then aborts ∷ [] else [])

-- `if ( operationCompletionHandlerV ) operationCompletionHandlerV( ... )`.
abbrev pub complete : ClientOperation → TransferStatus → Outcome
complete s status = (s, if s.operation_completion_handler_v then completes status ∷ [] else [])

-- The end of `handleCompletion`: a 16-bit counter is incremented and compared.
unfoldable pub retry : ClientOperation → Outcome
retry s =
    let s' = record s { retries_v = (s.retries_v + 1) % 65536 } in
    if ltb s.dlp_retries_v ((s.retries_v + 1) % 65536)
    then complete s' communication_error
    else (record s' { operation_v = true }, requests ∷ [])

-- The two switches on a rejected request: `none` is a `break`.
unfoldable pub abort_reply : ClientOperation → StatusCode → Option Outcome
abort_reply s operation_aborted_by_dlp = some (complete s aborted_by_dlp)
abort_reply s operation_aborted_by_operator = some (complete s aborted_by_operator)
abort_reply s _ = none

unfoldable pub wait_reply : ClientOperation → Option ℕ → Option Outcome
wait_reply s none = none
wait_reply s (some wait_time) = some (
  record s { wait_timer_v = waiting wait_time },
  if s.operation_deferred_handler_v then defers wait_time ∷ [] else [],
)

-- `std::get< 1 >( *errorInformationV )`, which is there where the type is not `invalid_message`.
abbrev pub message_of : ErrorInformation → List ℕ
message_of none = []
message_of (some (code, error_message)) = error_message

unfoldable pub rejected : ClientOperation → ErrorMessageType → Option Outcome
rejected s abort_message =
    let reply = abort_reply s (abort_decode (message_of s.error_information_v)) in
    if s.handle_abort_v then reply else none
rejected s wait_message = wait_reply s (wait_decode (message_of s.error_information_v))
rejected s invalid_message = none

unfoldable pub or_retry : ClientOperation → Option Outcome → Outcome
or_retry s none = retry s
or_retry s (some outcome) = outcome

-- `operationV->errorInformation()` is the argument `information`.
unfoldable pub handle_completion : TftpTransferStatus → ErrorInformation → ClientOperation → Outcome
handle_completion tftp_successful information s =
    complete (record s { operation_v = false; error_information_v = none }) successful
handle_completion tftp_aborted information s =
    complete (record s { error_information_v = information; operation_v = false }) aborted
handle_completion tftp_request_error information s =
    let s' = record s { error_information_v = information; operation_v = false } in
    or_retry s' (rejected s' (error_message_type information))
handle_completion _ information s =
    retry (record s { error_information_v = information; operation_v = false })

-- The timer has no handler pending when its handler runs.
unfoldable pub handle_wait_timeout : TimerResult → ClientOperation → Outcome
handle_wait_timeout operation_aborted s =
    complete (record s { wait_timer_v = unarmed }) aborted_by_dlp
handle_wait_timeout timer_error s = complete (record s { wait_timer_v = unarmed }) aborted_by_dlp
handle_wait_timeout expired s =
    (record s { wait_timer_v = unarmed; operation_v = true }, requests ∷ [])
