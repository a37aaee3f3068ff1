-- ===== src/Target/InformationOperation/History.antt =====
-- The information operation of the target under any sequence of events.
use arinc_615a_cli_tool_suit.Base.{
  All, List, Option, any_of-none, false, or_left, refl, run_events, true, ℕ, ◌||◌, ◌≡◌,
}
use arinc_615a_cli_tool_suit.Information.{Status}
use arinc_615a_cli_tool_suit.RawData.{RawDataLaws, RawDataOps}
use arinc_615a_cli_tool_suit.Target.InformationOperation.{TargetInformation}
use arinc_615a_cli_tool_suit.Target.InformationOperation.Events.{
  TargetInformationEvent, handle_target_information,
}
use arinc_615a_cli_tool_suit.Target.InformationOperation.Preservation.{information_event_step}
use arinc_615a_cli_tool_suit.Target.InformationOperation.Steps.{
  IsInformationFile, IsProperInformation, IsReadyInformation, information_announced_by,
}
use arinc_615a_cli_tool_suit.Target.Machine.{TargetMachine, machine_step}
use arinc_615a_cli_tool_suit.Target.Operation.{do_start}
use arinc_615a_cli_tool_suit.Target.Operation.Progress.{
  has_ended, has_thrown, start_lem, target_waits,
}

module _ (raw : RawDataOps) (laws : RawDataLaws raw) where
  abbrev pub information_machine : TargetMachine
  information_machine = record {
    State = TargetInformation;
    Input = TargetInformationEvent;
    Sent = Status;
    base = λ s. s.target_base;
    react = handle_target_information raw;
    IsReady = λ n s. IsReadyInformation s;
    IsProper = IsProperInformation;
    IsFile = IsInformationFile raw;
    announced_by = information_announced_by;
    throws_at = λ _. false;
    keeps = λ n e s p r. information_event_step raw laws e s p r;
  }

  -- An information operation of the target that was started waits for the end of its initialisation or
  -- for its timer after any sequence of events, unless its user was told that it is over, and no
  -- exception leaves a handler: where the version is supported, the status can be sent, and so can all
  -- texts and lists of hardware that its user gives.
  pub target_information_waits_or_has_ended :
      (events : List TargetInformationEvent) (s : TargetInformation) (address : ℕ) (port : Option ℕ)
      → All IsProperInformation events
      → IsReadyInformation s
      → let started = do_start raw address port s.target_base in
        let outcome =
          run_events
            (handle_target_information raw)
            events
            (record s { target_base = started.0 }) in
        (target_waits outcome.0.target_base || has_ended outcome.1 ≡ true)
        × (has_thrown outcome.1 ≡ false)
  target_information_waits_or_has_ended events s address port p r =
      let started = start_lem raw laws address port s.target_base r.version in
      let ran =
        machine_step information_machine 0 events
          (record s { target_base = (do_start raw address port s.target_base).0 }) p
          (record { version = rw started.1 r.version; pending = r.pending }) in
      (
        ran.lively (or_left _ _ started.0),
        rw (any_of-none (λ _. false) (λ _. refl) events) at ran.quiet,
      )
