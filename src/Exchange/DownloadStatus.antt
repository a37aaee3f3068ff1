-- ===== src/Exchange/DownloadStatus.antt =====
-- The status files of a download on their way from the target to the host.
use arinc_615a_cli_tool_suit.Base.{
  All, List, [], arith, collect, length, ok, refl, run_events, subst, true, ℕ, ◌++◌, ◌∷◌, ◌≡◌,
}
use arinc_615a_cli_tool_suit.Exchange.Delivery.{delivered_in_order, handle_upload_status_silent}
use arinc_615a_cli_tool_suit.Files.DownloadStatusFile
use arinc_615a_cli_tool_suit.Files.DownloadStatusFile.{DownloadStatusFile, empty_download_status}
use arinc_615a_cli_tool_suit.Host.DownloadOperation.{
  DownloadOperation, DownloadOutcome, download_status_request, host_download_status_completed,
  host_download_status_read, host_download_status_received,
}
use arinc_615a_cli_tool_suit.Host.Operation.{
  HostAction, is_aborted, is_no_abort, receives_status, remove, reports_download_status,
}
use arinc_615a_cli_tool_suit.Host.UploadOperation.{handle_upload_status}
use arinc_615a_cli_tool_suit.Information.{DownloadStatus}
use arinc_615a_cli_tool_suit.RawData.{RawDataLaws, RawDataOps}
use arinc_615a_cli_tool_suit.Status.{Arinc615aVersion, DownloadKind}
use arinc_615a_cli_tool_suit.Target.DownloadOperation.{TargetDownload}
use arinc_615a_cli_tool_suit.Target.DownloadOperation.Events.{
  TargetDownloadEvent, handle_target_download,
}
use arinc_615a_cli_tool_suit.Target.DownloadOperation.History.{download_machine}
use arinc_615a_cli_tool_suit.Target.DownloadOperation.Ready.{IsReadyDownload}
use arinc_615a_cli_tool_suit.Target.DownloadOperation.Steps.{IsDownloadFile, IsProperDownload}
use arinc_615a_cli_tool_suit.Target.Machine.{announced, machine_step}
use arinc_615a_cli_tool_suit.Target.Operation.Progress.{status_files}
use arinc_615a_cli_tool_suit.Tftp.{tftp_successful}

module _ (raw : RawDataOps) where
  -- A status file that is written to the host and received without a failure.
  unfoldable pub deliver_download : List ℕ → DownloadOperation → DownloadOutcome
  deliver_download file s =
      let requested = download_status_request 0 s in
      let completed = host_download_status_completed raw 0 tftp_successful file requested.0 in
      (completed.0, requested.1 ++ completed.1)

abbrev pub download_status_of : HostAction → List DownloadStatus
download_status_of (reports_download_status status) = status ∷ []
download_status_of _ = []

-- No abort is pending, and no status file is being received.
pub record IsReceptive (s : DownloadOperation) : Type 0 where
  pub not_aborted : is_no_abort s.download_base.abort_reason_v ≡ true
  pub none_running : s.download_status_operations_v ≡ []

module _ (raw : RawDataOps) where
  deliver_eq :
      (v : Arinc615aVersion) (file : List ℕ) (status : DownloadStatus) (s : DownloadOperation)
      → IsReceptive s
      → DownloadStatusFile.decode raw empty_download_status file
        ≡ ok (record { version = v; status = status })
      → let outcome = handle_upload_status status.status s.download_base in
        deliver_download raw file s ≡ (
          record s { download_base = outcome.0; download_status_operations_v = [] },
          receives_status ∷ reports_download_status status ∷ outcome.1,
        )
  unfolding deliver_download download_status_request is_aborted host_download_status_completed
      host_download_status_received host_download_status_read remove
  deliver_eq v file status s l d =
      rw (l.not_aborted, l.none_running) (rw (host_download_status_read, d) refl)

  status_lem :
      (file : List ℕ) (status : DownloadStatus) (s : DownloadOperation)
      → IsReceptive s
      → IsDownloadFile raw file status
      → IsReceptive (deliver_download raw file s).0
        × (collect download_status_of (deliver_download raw file s).1 ≡ status ∷ [])
  unfolding collect
  status_lem file status s l f =
      let kept =
        handle_upload_status_silent download_status_of (λ c d. refl) refl status.status
          s.download_base in
      rw (deliver_eq f.0 file status s l f.1)
        (record { not_aborted = rw kept.0 l.not_aborted; none_running = refl }, rw kept.1 refl)

  -- The user of the host is told the statuses that the target sends in a download, media or operator
  -- defined, and no others, in their order and as they stood when they were sent: where each file is
  -- delivered in the order of sending, the host has no abort pending and receives no other status file,
  -- and the target is in a state and under events that can be sent.
  pub host_hears_download :
      (laws : RawDataLaws raw) (kind : DownloadKind) (events : List TargetDownloadEvent)
      (t : TargetDownload) (h : DownloadOperation)
      → All IsProperDownload events
      → IsReadyDownload (length events) t
      → IsReceptive h
      → collect download_status_of
          (run_events
            (deliver_download raw)
            (status_files (run_events (handle_target_download raw kind) events t).1)
            h).1
        ≡ announced (download_machine raw laws kind) events t
  host_hears_download laws kind events t h p r l =
      delivered_in_order (deliver_download raw) download_status_of IsReceptive (IsDownloadFile raw)
        status_lem (status_files (run_events (handle_target_download raw kind) events t).1)
        (announced (download_machine raw laws kind) events t) h l
        (machine_step (download_machine raw laws kind) 0 events t p
          (subst (λ m. IsReadyDownload m t) (omega arith) r)).carries
