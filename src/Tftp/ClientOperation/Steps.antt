-- ===== src/Tftp/ClientOperation/Steps.antt =====
-- The client operation in its environment: which calls come when, and what holds of every history.
use arinc_615a_cli_tool_suit.Base.{
  Bool, List, [], false, if◌then◌else◌, true, ℕ, ◌&&◌, ◌++◌, ◌+◌, ◌||◌, ◌∷◌, ◌≡◌, ◌≤◌, ◌⊎◌,
}
use arinc_615a_cli_tool_suit.Tftp.{ErrorInformation, TftpTransferStatus}
use arinc_615a_cli_tool_suit.Tftp.ClientOperation.{
  Action, ClientOperation, Outcome, TimerResult, WaitTimer, abort, completes, graceful_abort,
  handle_completion, handle_wait_timeout, request, unarmed,
}

abbrev pub is_armed : WaitTimer → Bool
is_armed unarmed = false
is_armed _ = true

-- The calls of the user, of the TFTP operation that stands, and of the wait timer. A new request is
-- made only when nothing is outstanding: `request` has no guard of its own, and a second one would
-- replace the operation that stands. A TFTP operation completes only while it stands, and the timer
-- reports only while it is armed.
pub data Event : Type 0 where
  user_request user_abort user_graceful_abort : Event
  operation_completion : TftpTransferStatus → ErrorInformation → Event
  timeout : TimerResult → Event

unfoldable pub handle : Event → ClientOperation → Outcome
handle user_request s = request s
handle user_abort s = abort s
handle user_graceful_abort s = graceful_abort s
handle (operation_completion status information) s = handle_completion status information s
handle (timeout result) s = handle_wait_timeout result s

abbrev pub IsEnabled : Event → ClientOperation → Type 0
IsEnabled user_request s = (s.operation_v ≡ false) × (is_armed s.wait_timer_v ≡ false)
IsEnabled user_abort s = Unit
IsEnabled user_graceful_abort s = Unit
IsEnabled (operation_completion status information) s = s.operation_v ≡ true
IsEnabled (timeout result) s = is_armed s.wait_timer_v ≡ true

-- The histories of an operation, with all that was called outside.
pub data Runs (start : ClientOperation) : ClientOperation → List Event → List Action → Type 0 where
  begin : Runs start start [] []
  step :
      {s : ClientOperation} {events : List Event} {actions : List Action} (e : Event)
      → Runs start s events actions
      → IsEnabled e s
      → Runs start (handle e s).0 (events ++ e ∷ []) (actions ++ (handle e s).1)

-- What is counted of a history: requests of the user, and notifications of the completion.
abbrev pub is_start : Event → ℕ
is_start user_request = 1
is_start _ = 0

unfoldable pub starts : List Event → ℕ
starts [] = 0
starts (e ∷ events) = is_start e + starts events

abbrev pub is_report : Action → ℕ
is_report (completes status) = 1
is_report _ = 0

unfoldable pub reports : List Action → ℕ
reports [] = 0
reports (a ∷ actions) = is_report a + reports actions

abbrev pub outstanding : ClientOperation → ℕ
outstanding s = if s.operation_v || is_armed s.wait_timer_v then 1 else 0

-- Either a TFTP operation stands or the wait timer is armed, but not both, and while one of them is,
-- the retry counter is within its limit.
pub record Inv (s : ClientOperation) : Type 0 where
  pub notified : s.operation_completion_handler_v ≡ true
  pub exclusive : s.operation_v && is_armed s.wait_timer_v ≡ false
  pub limited : (outstanding s ≡ 0) ⊎ (s.retries_v ≤ s.dlp_retries_v)

-- What every step does: it keeps the invariant and the limit, and the notification comes with the end.
pub record IsStep (begins : ℕ) (s : ClientOperation) (outcome : Outcome) : Type 0 where
  pub inv : Inv outcome.0
  pub same_limit : outcome.0.dlp_retries_v ≡ s.dlp_retries_v
  pub counted : outstanding outcome.0 + reports outcome.1 ≡ outstanding s + begins
