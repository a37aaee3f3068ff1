-- ===== src/Target/Machine.antt =====
-- What the theorems on the operations of the target share: an operation is a `TargetMachine`, and the
-- theorems on all sequences of events are proved here once.
use arinc_615a_cli_tool_suit.Base.{
  All, Bool, Bool-cases, Error, List, [], any_of, any_of-behind, any_of-front, any_of-join, arith,
  collect, collect-append, false, if◌then◌else◌, inl, inr, length, or_left, or_true, refl,
  run_events, subst, suc, true, ℕ, ◌++◌, ◌+◌, ◌||◌, ◌∷◌, ◌≡◌,
}
use arinc_615a_cli_tool_suit.Target.Operation.{TargetAction, TargetOperation, throws}
use arinc_615a_cli_tool_suit.Target.Operation.BaseSteps.{IsBaseStep}
use arinc_615a_cli_tool_suit.Target.Operation.Progress.{
  has_ended, has_thrown, is_end, is_throw, status_file_of, status_files, target_waits,
}

-- The files hold these values, in this order.
module _ {Sent : Type 0} (IsFile : List ℕ → Sent → Type 0) where
  abbrev pub Carry : List (List ℕ) → List Sent → Type 0
  Carry [] [] = Unit {0}
  Carry (file ∷ files) (sent ∷ all) = IsFile file sent × Carry files all
  Carry _ _ = ⊥

  pub Carry-append :
      (fs gs : List (List ℕ)) (ss ts : List Sent)
      → Carry fs ss
      → Carry gs ts
      → Carry (fs ++ gs) (ss ++ ts)
  Carry-append [] gs [] ts h k = k
  Carry-append [] gs (s ∷ ss) ts h k = absurd h
  Carry-append (f ∷ fs) gs [] ts h k = absurd h
  Carry-append (f ∷ fs) gs (s ∷ ss) ts h k = (h.0, Carry-append fs gs ss ts h.1 k)

  pub Carry-one :
      (files : List (List ℕ)) (sent : Sent)
      → Carry files (sent ∷ [])
      → (file : List ℕ) × (files ≡ file ∷ []) × IsFile file sent
  Carry-one [] sent c = absurd c
  Carry-one (file ∷ []) sent c = (file, refl, c.0)
  Carry-one (file ∷ next ∷ files) sent c = absurd c.1

-- What an event does: the state can still be sent, something is left to wait for or the operation ends,
-- an exception leaves the handler or none does, and the status files that are sent hold the statuses.
pub record IsTargetOutcome {State Sent : Type 0} (base : State → TargetOperation)
    (IsReady : State → Type 0) (IsFile : List ℕ → Sent → Type 0) (before thrown : Bool)
    (statuses : List Sent) (o : State × List TargetAction) : Type 0 where
  pub ready : IsReady o.0
  pub lively : before ≡ true → target_waits (base o.0) || has_ended o.1 ≡ true
  pub quiet : has_thrown o.1 ≡ thrown
  pub carries : Carry IsFile (status_files o.1) statuses

-- An event of which no exception leaves the handler.
abbrev pub IsTargetStep :
    {State Sent : Type 0}
    → (State → TargetOperation)
    → (State → Type 0)
    → (List ℕ → Sent → Type 0)
    → Bool
    → List Sent
    → State × List TargetAction
    → Type 0
IsTargetStep base IsReady IsFile before statuses o =
    IsTargetOutcome base IsReady IsFile before false statuses o

module _ {State Sent : Type 0} (base : State → TargetOperation) (IsReady : State → Type 0)
    (IsFile : List ℕ → Sent → Type 0) where
  -- A handler that changes the state and not what is waited for.
  pub idle_step :
      (s : State) → IsReady s → IsTargetStep base IsReady IsFile (target_waits (base s)) [] (s, [])
  unfolding any_of collect
  idle_step s r = record { ready = r; lively = λ w. or_left _ _ w; quiet = refl; carries = tt }

  -- A handler that an exception leaves, and that does not change what is waited for.
  pub throw_step :
      (s : State) (e : Error)
      → IsReady s
      → IsTargetOutcome base IsReady IsFile (target_waits (base s)) true [] (s, throws e ∷ [])
  unfolding any_of collect
  throw_step s e r = record { ready = r; lively = λ w. or_left _ _ w; quiet = refl; carries = tt }

  -- A handler that makes a call that is neither thrown nor a status file.
  pub call_step :
      (s : State) (a : TargetAction)
      → IsReady s
      → is_throw a ≡ false
      → status_file_of a ≡ []
      → IsTargetStep base IsReady IsFile (target_waits (base s)) [] (s, a ∷ [])
  unfolding any_of collect
  call_step s a r q f = record {
    ready = r;
    lively = λ w. or_left _ _ w;
    quiet = rw q refl;
    carries = rw f tt;
  }

  -- A function of the base class.
  pub base_step :
      (s : TargetOperation) (o : State × List TargetAction)
      → IsReady o.0
      → IsBaseStep s (base o.0, o.1)
      → IsTargetStep base IsReady IsFile (target_waits s) [] o
  base_step s o r h = record {
    ready = r;
    lively = h.lively;
    quiet = h.quiet;
    carries = rw h.silent tt;
  }

  pub either_step :
      (w b : Bool) (x y : State × List TargetAction)
      → IsTargetStep base IsReady IsFile w [] x
      → IsTargetStep base IsReady IsFile w [] y
      → IsTargetStep base IsReady IsFile w [] (if b then x else y)
  either_step w true x y h k = h
  either_step w false x y h k = k

-- An operation of the target: the number is the number of events that it can still take.
pub record TargetMachine : Type 1 where
  pub State : Type 0
  pub Input : Type 0
  pub Sent : Type 0
  pub base : State → TargetOperation
  pub react : Input → State → State × List TargetAction
  pub IsReady : ℕ → State → Type 0
  pub IsProper : Input → Type 0
  pub IsFile : List ℕ → Sent → Type 0
  pub announced_by : Input → State → List Sent
  pub throws_at : Input → Bool
  pub keeps :
      (n : ℕ) (e : Input) (s : State)
      → IsProper e
      → IsReady (suc n) s
      → IsTargetOutcome base
          (IsReady n)
          IsFile
          (target_waits (base s))
          (throws_at e)
          (announced_by e s)
          (react e s)

module _ (m : TargetMachine) where
  -- The statuses that are sent, each as it stands when it is sent.
  unfoldable pub announced : List m.Input → m.State → List m.Sent
  announced [] s = []
  announced (e ∷ events) s = m.announced_by e s ++ announced events (m.react e s).0

  pub machine_step :
      (n : ℕ) (events : List m.Input) (s : m.State)
      → All m.IsProper events
      → m.IsReady (n + length events) s
      → IsTargetOutcome m.base
          (m.IsReady n)
          m.IsFile
          (target_waits (m.base s))
          (any_of m.throws_at events)
          (announced events s)
          (run_events m.react events s)
  unfolding run_events announced any_of collect
  machine_step n [] s p r = record {
    ready = subst (λ k. m.IsReady k s) (omega arith) r;
    lively = λ w. or_left _ _ w;
    quiet = refl;
    carries = tt;
  }
  machine_step n (e ∷ events) s p r =
      let first =
        m.keeps (n + length events) e s p.0 (subst (λ k. m.IsReady k s) (omega arith) r) in
      let outcome = m.react e s in
      let rest = machine_step n events outcome.0 p.1 first.ready in
      let last = run_events m.react events outcome.0 in
      record {
        ready = rest.ready;
        lively = λ w. elim (Bool-cases (target_waits (m.base outcome.0))) [
          | inl k ↦ any_of-behind is_end _ outcome.1 last.1 (rest.lively k)
          | inr k ↦ rw (any_of-front is_end outcome.1 last.1 (rw k at (first.lively w))) (or_true _)
        ];
        quiet = rw (any_of-join is_throw outcome.1 last.1, first.quiet, rest.quiet) refl;
        carries = rw (collect-append status_file_of outcome.1 last.1) (
            Carry-append m.IsFile (status_files outcome.1) (status_files last.1)
              (m.announced_by e s) (announced events outcome.0) first.carries rest.carries);
      }
