-- ===== src/Tftp/ClientOperation/Progress.antt =====
-- What each handler of a client operation does to the invariant and to the counts.
use arinc_615a_cli_tool_suit.Base.{
  Bool, Bool-cases, List, Option, [], arith, false, if◌then◌else◌, inl, inr, ltb, none, refl, some,
  some_injective, subst, true, ℕ, ◌%◌, ◌+◌, ◌∙◌, ◌∷◌, ◌≡◌, ◌≤◌,
}
use arinc_615a_cli_tool_suit.Status.{
  StatusCode, operation_aborted_by_dlp, operation_aborted_by_operator,
}
use arinc_615a_cli_tool_suit.Tftp.{
  ErrorInformation, ErrorMessageType, TftpTransferStatus, TransferStatus, abort_message, aborted,
  aborted_by_dlp, aborted_by_operator, communication_error, invalid_message, successful,
  tftp_aborted, tftp_request_error, tftp_successful, wait_message,
}
use arinc_615a_cli_tool_suit.Tftp.ClientOperation.{
  Action, ClientOperation, Outcome, TimerResult, WaitTimer, abort_reply, cancel, cancelled,
  complete, defers, expired, handle_completion, handle_wait_timeout, message_of, or_retry, rejected,
  requests, retry, unarmed, wait_reply, waiting,
}
use arinc_615a_cli_tool_suit.Tftp.ClientOperation.Steps.{
  Inv, IsStep, is_armed, is_report, outstanding, reports,
}
use arinc_615a_cli_tool_suit.Tftp.ErrorMessage.{abort_decode, error_message_type, wait_decode}

-- Nothing is outstanding.
pub record IsIdle (s : ClientOperation) : Type 0 where
  pub notified : s.operation_completion_handler_v ≡ true
  pub no_operation : s.operation_v ≡ false
  pub no_timer : is_armed s.wait_timer_v ≡ false

complete-IsStep :
    (s : ClientOperation) (status : TransferStatus) → IsIdle s → IsStep 1 s (complete s status)
unfolding reports
complete-IsStep s status i = record {
  inv = record { notified = i.notified; exclusive = ground arith; limited = inl (ground arith) };
  same_limit = refl;
  counted = rw i.notified (omega arith);
}

pub requested-IsStep :
    (s : ClientOperation)
    → IsIdle s
    → s.retries_v ≤ s.dlp_retries_v
    → IsStep 1 s (record s { operation_v = true }, requests ∷ [])
unfolding reports
requested-IsStep s i h = record {
  inv = record { notified = i.notified; exclusive = i.no_timer; limited = inr h };
  same_limit = refl;
  counted = rw (i.no_operation, i.no_timer) refl;
}

-- The same step seen from another state.
pub IsStep-from :
    {begins begins' : ℕ} (s s' : ClientOperation) {outcome : Outcome}
    → IsStep begins s outcome
    → s.dlp_retries_v ≡ s'.dlp_retries_v
    → outstanding s + begins ≡ outstanding s' + begins'
    → IsStep begins' s' outcome
IsStep-from s s' h e k = record {
  inv = h.inv;
  same_limit = h.same_limit ∙ e;
  counted = h.counted ∙ k;
}

retry-IsStep : (s : ClientOperation) → IsIdle s → IsStep 1 s (retry s)
unfolding retry
retry-IsStep s i =
    let s' : ClientOperation = record s { retries_v = (s.retries_v + 1) % 65536 } in
    let i' : IsIdle s' = record {
      notified = i.notified;
      no_operation = i.no_operation;
      no_timer = i.no_timer;
    } in
    elim (Bool-cases (ltb s.dlp_retries_v ((s.retries_v + 1) % 65536))) [
      | inl e ↦ rw e (IsStep-from s' s (complete-IsStep s' communication_error i') refl refl)
      | inr e ↦ rw e (IsStep-from s' s (requested-IsStep s' i' (ground arith)) refl refl)
    ]

-- A rejected request: where the switches handle it, that is a step too.
or_retry-IsStep :
    (s : ClientOperation) (o : Option Outcome)
    → IsIdle s
    → ((outcome : Outcome) → o ≡ some outcome → IsStep 1 s outcome)
    → IsStep 1 s (or_retry s o)
unfolding or_retry
or_retry-IsStep s none i h = retry-IsStep s i
or_retry-IsStep s (some outcome) i h = h outcome refl

abort_reply-IsStep :
    (s : ClientOperation) (c : StatusCode) (outcome : Outcome)
    → IsIdle s
    → abort_reply s c ≡ some outcome
    → IsStep 1 s outcome
unfolding abort_reply
abort_reply-IsStep s operation_aborted_by_dlp outcome i h =
    subst (IsStep 1 s) (some_injective h) (complete-IsStep s aborted_by_dlp i)
abort_reply-IsStep s operation_aborted_by_operator outcome i h =
    subst (IsStep 1 s) (some_injective h) (complete-IsStep s aborted_by_operator i)
abort_reply-IsStep s _ outcome i h = cc

quiet : (has_handler : Bool) (n : ℕ) → reports (if has_handler then defers n ∷ [] else []) ≡ 0
unfolding reports
quiet true n = refl
quiet false n = refl

wait_reply-IsStep :
    (s : ClientOperation) (o : Option ℕ) (outcome : Outcome)
    → IsIdle s
    → s.retries_v ≤ s.dlp_retries_v
    → wait_reply s o ≡ some outcome
    → IsStep 1 s outcome
unfolding wait_reply reports
wait_reply-IsStep s none outcome i l h = cc
wait_reply-IsStep s (some n) outcome i l h = subst (IsStep 1 s) (some_injective h) (record {
  inv = record { notified = i.notified; exclusive = ground arith; limited = inr l };
  same_limit = refl;
  counted = rw (i.no_operation, i.no_timer, quiet s.operation_deferred_handler_v n) refl;
})

some_of_if :
    (b : Bool) (o : Option Outcome) {outcome : Outcome}
    → (if b then o else none) ≡ some outcome
    → o ≡ some outcome
some_of_if true o h = h
some_of_if false o h = cc

rejected-IsStep :
    (s : ClientOperation) (t : ErrorMessageType) (outcome : Outcome)
    → IsIdle s
    → s.retries_v ≤ s.dlp_retries_v
    → rejected s t ≡ some outcome
    → IsStep 1 s outcome
unfolding rejected
rejected-IsStep s abort_message outcome i l h =
    let reply = abort_decode (message_of s.error_information_v) in
    abort_reply-IsStep s reply outcome i (some_of_if s.handle_abort_v (abort_reply s reply) h)
rejected-IsStep s wait_message outcome i l h =
    wait_reply-IsStep s (wait_decode (message_of s.error_information_v)) outcome i l h
rejected-IsStep s invalid_message outcome i l h = cc

pub completion-IsStep :
    (status : TftpTransferStatus) (information : ErrorInformation) (s : ClientOperation)
    → IsIdle (record s { error_information_v = information; operation_v = false })
    → s.retries_v ≤ s.dlp_retries_v
    → IsStep 1
        (record s { error_information_v = information; operation_v = false })
        (handle_completion status information s)
unfolding handle_completion
completion-IsStep tftp_successful information s i l =
    let s' : ClientOperation = record s { operation_v = false; error_information_v = none } in
    IsStep-from s' (record s { error_information_v = information; operation_v = false })
      (complete-IsStep s' successful
        (record { notified = i.notified; no_operation = refl; no_timer = i.no_timer }))
      refl refl
completion-IsStep tftp_aborted information s i l = complete-IsStep _ aborted i
completion-IsStep tftp_request_error information s i l =
    or_retry-IsStep _ (rejected _ (error_message_type information)) i
      (λ outcome h. rejected-IsStep _ (error_message_type information) outcome i l h)
completion-IsStep _ information s i l = retry-IsStep _ i

pub timeout-IsStep :
    (result : TimerResult) (s : ClientOperation)
    → IsIdle (record s { wait_timer_v = unarmed })
    → s.retries_v ≤ s.dlp_retries_v
    → IsStep 1 (record s { wait_timer_v = unarmed }) (handle_wait_timeout result s)
unfolding handle_wait_timeout
timeout-IsStep expired s i l = requested-IsStep _ i l
timeout-IsStep _ s i l = complete-IsStep _ aborted_by_dlp i

-- A cancelled timer still has its handler pending.
cancel-armed : (t : WaitTimer) → is_armed (cancel t) ≡ is_armed t
cancel-armed unarmed = refl
cancel-armed cancelled = refl
cancel-armed (waiting n) = refl

pub cancel-IsStep :
    (s : ClientOperation) (actions : List Action)
    → Inv s
    → reports actions ≡ 0
    → IsStep 0 s (record s { wait_timer_v = cancel s.wait_timer_v }, actions)
cancel-IsStep s actions v h = record {
  inv = record {
    notified = v.notified;
    exclusive = rw (cancel-armed s.wait_timer_v) v.exclusive;
    limited = rw (cancel-armed s.wait_timer_v) v.limited;
  };
  same_limit = refl;
  counted = rw (cancel-armed s.wait_timer_v, h) refl;
}

pub silent :
    (operation : Bool) (a : Action)
    → is_report a ≡ 0
    → reports (if operation then a ∷ [] else []) ≡ 0
unfolding reports
silent true a h = rw h refl
silent false a h = refl
