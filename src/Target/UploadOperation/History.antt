-- ===== src/Target/UploadOperation/History.antt =====
-- The upload operation of the target under any sequence of events.
use arinc_615a_cli_tool_suit.Base.{
  All, List, Option, any_of-none, arith, false, length, or_left, refl, subst, true, ℕ, ◌||◌, ◌≡◌,
}
use arinc_615a_cli_tool_suit.Information.{UploadStatus}
use arinc_615a_cli_tool_suit.RawData.{RawDataLaws, RawDataOps}
use arinc_615a_cli_tool_suit.Target.Machine.{TargetMachine, machine_step}
use arinc_615a_cli_tool_suit.Target.Operation.{do_start}
use arinc_615a_cli_tool_suit.Target.Operation.Progress.{
  has_ended, has_thrown, start_lem, target_waits,
}
use arinc_615a_cli_tool_suit.Target.UploadOperation.{TargetUpload}
use arinc_615a_cli_tool_suit.Target.UploadOperation.Events.{
  TargetUploadEvent, handle_target_upload, run_target_upload,
}
use arinc_615a_cli_tool_suit.Target.UploadOperation.Preservation.{event_step}
use arinc_615a_cli_tool_suit.Target.UploadOperation.Ready.{IsReadyLoads, IsReadyUpload}
use arinc_615a_cli_tool_suit.Target.UploadOperation.Steps.{
  IsProperUpload, IsStatusFile, upload_announced_by,
}

module _ (raw : RawDataOps) (laws : RawDataLaws raw) where
  abbrev pub upload_machine : TargetMachine
  upload_machine = record {
    State = TargetUpload;
    Input = TargetUploadEvent;
    Sent = UploadStatus;
    base = λ s. s.target_base;
    react = handle_target_upload raw;
    IsReady = IsReadyUpload;
    IsProper = IsProperUpload;
    IsFile = IsStatusFile raw;
    announced_by = upload_announced_by;
    throws_at = λ _. false;
    keeps = event_step raw laws;
  }

  -- An upload of the target that was started waits for the end of its initialisation or for its timer
  -- after any sequence of events, unless its user was told that it is over, and no exception leaves a
  -- handler: where the version is supported, the status can be sent, all texts that its user gives are
  -- plain and of at most 253 characters, and there is room for one more load in each event.
  pub target_upload_waits_or_has_ended :
      (events : List TargetUploadEvent) (s : TargetUpload) (address : ℕ) (port : Option ℕ)
      → All IsProperUpload events
      → IsReadyUpload (length events) s
      → let started = do_start raw address port s.target_base in
        let outcome = run_target_upload raw events (record s { target_base = started.0 }) in
        (target_waits outcome.0.target_base || has_ended outcome.1 ≡ true)
        × (has_thrown outcome.1 ≡ false)
  target_upload_waits_or_has_ended events s address port p r =
      let started = start_lem raw laws address port s.target_base r.version in
      let ran =
        machine_step upload_machine 0 events
          (record s { target_base = (do_start raw address port s.target_base).0 }) p
          (record {
            version = rw started.1 r.version;
            ready = subst (λ m. IsReadyLoads m s.status_v) (omega arith) r.ready;
          }) in
      (
        ran.lively (or_left _ _ started.0),
        rw (any_of-none (λ _. false) (λ _. refl) events) at ran.quiet,
      )
