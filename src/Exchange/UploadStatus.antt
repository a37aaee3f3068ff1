-- ===== src/Exchange/UploadStatus.antt =====
-- The status files of an upload on their way from the target to the host.
use arinc_615a_cli_tool_suit.Base.{
  All, List, [], arith, collect, length, ok, refl, run_events, subst, true, ℕ, ◌++◌, ◌∷◌, ◌≡◌,
}
use arinc_615a_cli_tool_suit.Exchange.Delivery.{delivered_in_order, handle_upload_status_silent}
use arinc_615a_cli_tool_suit.Files.UploadStatusFile
use arinc_615a_cli_tool_suit.Files.UploadStatusFile.{UploadStatusFile}
use arinc_615a_cli_tool_suit.Host.Operation.{
  HostAction, is_aborted, is_no_abort, receives_status, remove, reports_upload_status,
}
use arinc_615a_cli_tool_suit.Host.UploadOperation.{
  UploadOperation, UploadOutcome, empty_upload_status, handle_upload_status,
  upload_status_completed, upload_status_read, upload_status_received, upload_status_request,
}
use arinc_615a_cli_tool_suit.Information.{UploadStatus}
use arinc_615a_cli_tool_suit.RawData.{RawDataLaws, RawDataOps}
use arinc_615a_cli_tool_suit.Status.{Arinc615aVersion}
use arinc_615a_cli_tool_suit.Target.Machine.{announced, machine_step}
use arinc_615a_cli_tool_suit.Target.Operation.Progress.{status_files}
use arinc_615a_cli_tool_suit.Target.UploadOperation.{TargetUpload}
use arinc_615a_cli_tool_suit.Target.UploadOperation.Events.{TargetUploadEvent, run_target_upload}
use arinc_615a_cli_tool_suit.Target.UploadOperation.History.{upload_machine}
use arinc_615a_cli_tool_suit.Target.UploadOperation.Ready.{IsReadyUpload}
use arinc_615a_cli_tool_suit.Target.UploadOperation.Steps.{IsProperUpload, IsStatusFile}
use arinc_615a_cli_tool_suit.Tftp.{tftp_successful}

module _ (raw : RawDataOps) where
  -- A status file that is written to the host and received without a failure.
  unfoldable pub deliver : List ℕ → UploadOperation → UploadOutcome
  deliver file s =
      let requested = upload_status_request 0 s in
      let completed = upload_status_completed raw 0 tftp_successful file requested.0 in
      (completed.0, requested.1 ++ completed.1)

  abbrev pub deliver_all : List (List ℕ) → UploadOperation → UploadOutcome
  deliver_all = run_events deliver

abbrev pub status_of : HostAction → List UploadStatus
status_of (reports_upload_status status) = status ∷ []
status_of _ = []

-- The statuses that the user of the host is told, in order.
abbrev pub reported : List HostAction → List UploadStatus
reported actions = collect status_of actions

-- No abort is pending, and no status file is being received.
pub record IsListening (s : UploadOperation) : Type 0 where
  pub not_aborted : is_no_abort s.upload_base.abort_reason_v ≡ true
  pub none_running : s.upload_status_operations_v ≡ []

module _ (raw : RawDataOps) (v : Arinc615aVersion) (file : List ℕ) (status : UploadStatus) where
  -- What the host does with a file that holds a status.
  pub deliver_eq :
      (s : UploadOperation)
      → IsListening s
      → UploadStatusFile.decode raw empty_upload_status file
        ≡ ok (record { version = v; status = status })
      → let outcome = handle_upload_status status.status s.upload_base in
        deliver raw file s ≡ (
          record s { upload_base = outcome.0; upload_status_operations_v = [] },
          receives_status ∷ reports_upload_status status ∷ outcome.1,
        )
  unfolding deliver upload_status_request is_aborted upload_status_completed upload_status_received
      upload_status_read remove
  deliver_eq s l d = rw (l.not_aborted, l.none_running) (rw (upload_status_read, d) refl)

  pub deliver_lem :
      (s : UploadOperation)
      → IsListening s
      → UploadStatusFile.decode raw empty_upload_status file
        ≡ ok (record { version = v; status = status })
      → IsListening (deliver raw file s).0 × (reported (deliver raw file s).1 ≡ status ∷ [])
  unfolding collect
  deliver_lem s l d =
      let kept =
        handle_upload_status_silent status_of (λ c d. refl) refl status.status s.upload_base in
      rw (deliver_eq s l d)
        (record { not_aborted = rw kept.0 l.not_aborted; none_running = refl }, rw kept.1 refl)

module _ (raw : RawDataOps) where
  -- The user of the host is told the statuses that the target sends, and no others, in their order and
  -- as they stood when they were sent: where each file is delivered in the order of sending, the host
  -- has no abort pending and receives no other status file, and the target is in a state and under
  -- events that can be sent.
  pub host_hears_target :
      (laws : RawDataLaws raw) (events : List TargetUploadEvent) (t : TargetUpload)
      (h : UploadOperation)
      → All IsProperUpload events
      → IsReadyUpload (length events) t
      → IsListening h
      → reported (deliver_all raw (status_files (run_target_upload raw events t).1) h).1
        ≡ announced (upload_machine raw laws) events t
  host_hears_target laws events t h p r l =
      delivered_in_order (deliver raw) status_of IsListening (IsStatusFile raw)
        (λ file status s l f. deliver_lem raw f.0 file status s l f.1)
        (status_files (run_target_upload raw events t).1)
        (announced (upload_machine raw laws) events t) h l
        (machine_step (upload_machine raw laws) 0 events t p
          (subst (λ m. IsReadyUpload m t) (omega arith) r)).carries
