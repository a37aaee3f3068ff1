-- ===== src/Tftp/ClientOperation/History.antt =====
-- What holds of every history of a client operation.
use arinc_615a_cli_tool_suit.Base.{
  Bool, List, [], arith, false, if◌then◌else◌, inl, inr, refl, true, ℕ, ◌&&◌, ◌++◌, ◌+◌, ◌||◌, ◌∙◌,
  ◌∷◌, ◌≡◌, ◌≤◌, ◌⊎◌,
}
use arinc_615a_cli_tool_suit.Tftp.ClientOperation.{
  Action, ClientOperation, abort, aborts, graceful_abort, gracefully_aborts, request, unarmed,
}
use arinc_615a_cli_tool_suit.Tftp.ClientOperation.Progress.{
  IsStep-from, cancel-IsStep, completion-IsStep, requested-IsStep, silent, timeout-IsStep,
}
use arinc_615a_cli_tool_suit.Tftp.ClientOperation.Steps.{
  Event, Inv, IsEnabled, IsStep, Runs, begin, handle, is_armed, is_start, operation_completion,
  outstanding, reports, starts, step, timeout, user_abort, user_graceful_abort, user_request,
}

-- What stands while the other does not.
alone_operation : (o t : Bool) → o && t ≡ false → o ≡ true → t ≡ false
alone_operation true t h e = h
alone_operation false t h e = cc

alone_timer : (o t : Bool) → o && t ≡ false → t ≡ true → o ≡ false
alone_timer true t h e = cc
alone_timer false t h e = refl

either_armed : (o t : Bool) → (o ≡ true) ⊎ (t ≡ true) → ◌≡◌ {A = ℕ} (if o || t then 1 else 0) 1
either_armed true t h = refl
either_armed false t (inl e) = cc
either_armed false t (inr e) = rw e refl

within : (n r d : ℕ) → (n ≡ 0) ⊎ (r ≤ d) → n ≡ 1 → r ≤ d
within n r d (inl e) h = absurd (omega arith)
within n r d (inr e) h = e

handle-IsStep :
    (e : Event) (s : ClientOperation) → Inv s → IsEnabled e s → IsStep (is_start e) s (handle e s)
unfolding handle request abort graceful_abort
handle-IsStep user_request s v h =
    IsStep-from (record s { retries_v = 0 }) s
      (requested-IsStep (record s { retries_v = 0 })
        (record { notified = v.notified; no_operation = h.0; no_timer = h.1 }) (omega arith))
      refl refl
handle-IsStep user_abort s v h =
    cancel-IsStep s (if s.operation_v then aborts ∷ [] else []) v (silent s.operation_v aborts refl)
handle-IsStep user_graceful_abort s v h =
    cancel-IsStep s (if s.operation_v then gracefully_aborts ∷ [] else []) v
      (silent s.operation_v gracefully_aborts refl)
handle-IsStep (operation_completion status information) s v h =
    let idle : is_armed s.wait_timer_v ≡ false =
      alone_operation s.operation_v (is_armed s.wait_timer_v) v.exclusive h in
    let one : outstanding s ≡ 1 = either_armed s.operation_v (is_armed s.wait_timer_v) (inl h) in
    IsStep-from (record s { error_information_v = information; operation_v = false }) s
      (completion-IsStep status information s
        (record { notified = v.notified; no_operation = refl; no_timer = idle })
        (within (outstanding s) s.retries_v s.dlp_retries_v v.limited one))
      refl (rw (idle, h) refl)
handle-IsStep (timeout result) s v h =
    let idle : s.operation_v ≡ false =
      alone_timer s.operation_v (is_armed s.wait_timer_v) v.exclusive h in
    let one : outstanding s ≡ 1 = either_armed s.operation_v (is_armed s.wait_timer_v) (inr h) in
    IsStep-from (record s { wait_timer_v = unarmed }) s
      (timeout-IsStep result s
        (record { notified = v.notified; no_operation = idle; no_timer = refl })
        (within (outstanding s) s.retries_v s.dlp_retries_v v.limited one))
      refl (rw (idle, h) refl)

-- The claim for every history.
record IsAccounted (start s : ClientOperation) (events : List Event) (actions : List Action)
    : Type 0 where
  inv : Inv s
  same_limit : s.dlp_retries_v ≡ start.dlp_retries_v
  counted : outstanding s + reports actions ≡ outstanding start + starts events

reports-append : (xs ys : List Action) → reports (xs ++ ys) ≡ reports xs + reports ys
unfolding reports
reports-append [] ys = omega arith
reports-append (x ∷ xs) ys = omega (arith, reports-append xs ys)

starts-append : (xs : List Event) (e : Event) → starts (xs ++ e ∷ []) ≡ starts xs + is_start e
unfolding starts
starts-append [] e = omega arith
starts-append (x ∷ xs) e = omega (arith, starts-append xs e)

Runs-IsAccounted :
    {start s : ClientOperation} {events : List Event} {actions : List Action}
    → Inv start
    → Runs start s events actions
    → IsAccounted start s events actions
unfolding starts reports
Runs-IsAccounted v begin = record { inv = v; same_limit = refl; counted = refl }
Runs-IsAccounted v (step {s} {events} {actions} e r h) =
    let before = Runs-IsAccounted v r in
    let done = handle-IsStep e s before.inv h in
    record {
      inv = done.inv;
      same_limit = done.same_limit ∙ before.same_limit;
      counted = omega (
        arith,
        reports-append actions (handle e s).1,
        starts-append events e,
        done.counted,
        before.counted,
      );
    }

-- In every history of an operation whose completion handler is set, from a state with nothing
-- outstanding, where the user makes a new request only while neither a TFTP operation stands nor the
-- wait timer is armed, a TFTP operation completes only while it stands, and the timer reports only while
-- it is armed, and the user aborts at any time: a TFTP operation and the wait timer never stand at once, the retry counter stays within
-- its limit while one of them does, and there is one notification of the completion for each request,
-- but for one while something is outstanding.
pub every_request_is_answered :
    {start s : ClientOperation} {events : List Event} {actions : List Action}
    → start.operation_completion_handler_v ≡ true
    → start.operation_v ≡ false
    → start.wait_timer_v ≡ unarmed
    → Runs start s events actions
    → (s.operation_v && is_armed s.wait_timer_v ≡ false)
      × ((outstanding s ≡ 0) ⊎ (s.retries_v ≤ start.dlp_retries_v))
      × (outstanding s + reports actions ≡ starts events)
every_request_is_answered {start} {s} n o t r =
    let nothing : outstanding start ≡ 0 = rw (o, t) refl in
    let done =
      Runs-IsAccounted (record { notified = n; exclusive = rw o refl; limited = inl nothing }) r in
    (
      done.inv.exclusive,
      rw done.same_limit at done.inv.limited,
      omega (arith, done.counted, nothing),
    )
