-- ===== src/Target/DownloadOperation/History.antt =====
-- The download operations of the target under any sequence of events.
use arinc_615a_cli_tool_suit.Base.{
  All, List, Option, any_of, arith, length, or_left, run_events, subst, true, ℕ, ◌||◌, ◌≡◌,
}
use arinc_615a_cli_tool_suit.Information.{DownloadStatus}
use arinc_615a_cli_tool_suit.RawData.{RawDataLaws, RawDataOps}
use arinc_615a_cli_tool_suit.Status.{DownloadKind}
use arinc_615a_cli_tool_suit.Target.DownloadOperation.{TargetDownload}
use arinc_615a_cli_tool_suit.Target.DownloadOperation.Events.{
  TargetDownloadEvent, handle_target_download,
}
use arinc_615a_cli_tool_suit.Target.DownloadOperation.Preservation.{download_event_step}
use arinc_615a_cli_tool_suit.Target.DownloadOperation.Ready.{IsReadyDownload, IsReadyFiles}
use arinc_615a_cli_tool_suit.Target.DownloadOperation.Steps.{
  IsDownloadFile, IsProperDownload, download_announced_by, receives_fatal_file,
}
use arinc_615a_cli_tool_suit.Target.Machine.{TargetMachine, machine_step}
use arinc_615a_cli_tool_suit.Target.Operation.{do_start}
use arinc_615a_cli_tool_suit.Target.Operation.Progress.{
  has_ended, has_thrown, start_lem, target_waits,
}

module _ (raw : RawDataOps) (laws : RawDataLaws raw) (kind : DownloadKind) where
  abbrev pub download_machine : TargetMachine
  download_machine = record {
    State = TargetDownload;
    Input = TargetDownloadEvent;
    Sent = DownloadStatus;
    base = λ s. s.target_base;
    react = handle_target_download raw kind;
    IsReady = IsReadyDownload;
    IsProper = IsProperDownload;
    IsFile = IsDownloadFile raw;
    announced_by = download_announced_by;
    throws_at = receives_fatal_file raw kind;
    keeps = download_event_step raw laws kind;
  }

  -- A download of the target, media or operator defined, that was started waits for the end of its
  -- initialisation or for its timer after any sequence of events, unless its user was told that it is
  -- over, and an exception leaves a handler exactly where one of the events is the end of the
  -- request file of a media defined download that makes the helper library fail while it is decoded, so
  -- that none leaves a handler of an operator defined one: where the version is supported, the status can be sent, all
  -- texts and lists that its user gives can be sent, and there is room for one more file in each event.
  pub target_download_waits_or_has_ended :
      (events : List TargetDownloadEvent) (s : TargetDownload) (address : ℕ) (port : Option ℕ)
      → All IsProperDownload events
      → IsReadyDownload (length events) s
      → let started = do_start raw address port s.target_base in
        let outcome =
          run_events
            (handle_target_download raw kind)
            events
            (record s { target_base = started.0 }) in
        (target_waits outcome.0.target_base || has_ended outcome.1 ≡ true)
        × (has_thrown outcome.1 ≡ any_of (receives_fatal_file raw kind) events)
  target_download_waits_or_has_ended events s address port p r =
      let started = start_lem raw laws address port s.target_base r.version in
      let ran =
        machine_step download_machine 0 events
          (record s { target_base = (do_start raw address port s.target_base).0 }) p
          (record {
            version = rw started.1 r.version;
            ready = subst (λ m. IsReadyFiles m s.status_v) (omega arith) r.ready;
          }) in
      (ran.lively (or_left _ _ started.0), ran.quiet)
