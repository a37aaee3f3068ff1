-- ===== src/Target/UploadOperation/Events.antt =====
-- The upload operation of the target under any sequence of events. A call that the handler makes while
-- it is called is an event of its own.
use arinc_615a_cli_tool_suit.Base.{Bool, List, [], run_events, ℕ}
use arinc_615a_cli_tool_suit.Files.Ratio.{Ratio}
use arinc_615a_cli_tool_suit.Information.{UploadStatus}
use arinc_615a_cli_tool_suit.RawData.{RawDataOps}
use arinc_615a_cli_tool_suit.Status.{FinalStatus}
use arinc_615a_cli_tool_suit.Target.Operation.{send_init_file_complete}
use arinc_615a_cli_tool_suit.Target.UploadOperation.{
  TargetUpload, TargetUploadOutcome, request_file_completed, transfer_file, upload_accepted,
  upload_finished, upload_in_progress, upload_in_progress_ratio, upload_status_file_completed,
  upload_target_request, upload_timer_handler, with_target_base,
}
use arinc_615a_cli_tool_suit.Target.UploadOperation.Loads.{
  load_accepted, load_finished, load_in_progress, loads_finished,
}
use arinc_615a_cli_tool_suit.Tftp.{RequestType, TftpTransferStatus, TransferStatus}
use arinc_615a_cli_tool_suit.Tftp.ClientOperation.{TimerResult}

pub data TargetUploadEvent : Type 0 where
  accepts : TargetUploadEvent
  progresses : Bool → ℕ → List ℕ → TargetUploadEvent
  progresses_ratio : Bool → ℕ → List ℕ → Ratio → TargetUploadEvent
  accepts_load : List ℕ → List ℕ → TargetUploadEvent
  progresses_load : List ℕ → Ratio → List ℕ → TargetUploadEvent
  finishes_load : List ℕ → FinalStatus → List ℕ → TargetUploadEvent
  finishes_loads : FinalStatus → List ℕ → TargetUploadEvent
  transfers_file : List ℕ → List ℕ → TargetUploadEvent
  finishes_upload : FinalStatus → List ℕ → TargetUploadEvent
  initialisation_sent : TftpTransferStatus → TargetUploadEvent
  transmission_timer : TimerResult → TargetUploadEvent
  status_sent : UploadStatus → TransferStatus → TargetUploadEvent
  target_request : ℕ → RequestType → List ℕ → TargetUploadEvent
  request_received : TftpTransferStatus → List ℕ → TargetUploadEvent

module _ (raw : RawDataOps) where
  unfoldable pub handle_target_upload : TargetUploadEvent → TargetUpload → TargetUploadOutcome
  handle_target_upload accepts s = (upload_accepted s, [])
  handle_target_upload (progresses immediate estimated_time description) s =
      (upload_in_progress immediate estimated_time description s, [])
  handle_target_upload (progresses_ratio immediate estimated_time description list_ratio) s =
      (upload_in_progress_ratio immediate estimated_time description list_ratio s, [])
  handle_target_upload (accepts_load header_filename part_number) s =
      (record s { status_v = load_accepted header_filename part_number s.status_v }, [])
  handle_target_upload (progresses_load header_filename ratio description) s =
      (record s { status_v = load_in_progress header_filename ratio description s.status_v }, [])
  handle_target_upload (finishes_load header_filename status description) s =
      (record s { status_v = load_finished header_filename status description s.status_v }, [])
  handle_target_upload (finishes_loads status description) s =
      (record s { status_v = loads_finished status description s.status_v }, [])
  handle_target_upload (transfers_file filename part_number) s =
      transfer_file filename part_number s
  handle_target_upload (finishes_upload status description) s =
      (upload_finished status description s, [])
  handle_target_upload (initialisation_sent status) s =
      with_target_base s (send_init_file_complete status s.target_base)
  handle_target_upload (transmission_timer result) s = upload_timer_handler raw result s
  handle_target_upload (status_sent sent status) s = upload_status_file_completed sent status s
  handle_target_upload (target_request address request_type filename) s =
      upload_target_request address request_type filename s
  handle_target_upload (request_received status raw_file) s =
      request_file_completed raw status raw_file s

  abbrev pub run_target_upload : List TargetUploadEvent → TargetUpload → TargetUploadOutcome
  run_target_upload = run_events handle_target_upload
