-- ===== src/Target/DownloadOperation.antt =====
-- lib/arinc_615a/target/implementation/MediaDefinedDownloadOperationImpl.cpp and
-- OperatorDefinedDownloadOperationImpl.cpp: the host takes files from the target.
pub mod Parts
pub mod Events
pub mod Ready
pub mod Steps
pub mod Received
pub mod Preservation
pub mod History
use arinc_615a_cli_tool_suit.Base.{
  Bool, List, Result, [], err, false, if◌then◌else◌, is_caught, none, not, ok, some, text_codes,
  true, ℕ, ◌==◌, ◌∷◌,
}
use arinc_615a_cli_tool_suit.Files.DownloadAnswerFile
use arinc_615a_cli_tool_suit.Files.DownloadAnswerFile.{DownloadAnswerFile}
use arinc_615a_cli_tool_suit.Files.DownloadListFile
use arinc_615a_cli_tool_suit.Files.DownloadListFile.{DownloadListFile}
use arinc_615a_cli_tool_suit.Files.DownloadRequestFile
use arinc_615a_cli_tool_suit.Files.DownloadRequestFile.{DownloadRequestFile}
use arinc_615a_cli_tool_suit.Files.DownloadStatusFile
use arinc_615a_cli_tool_suit.Files.DownloadStatusFile.{DownloadStatusFile}
use arinc_615a_cli_tool_suit.Files.Ratio.{Ratio}
use arinc_615a_cli_tool_suit.Information.{DownloadFileInformation, DownloadStatus, Status}
use arinc_615a_cli_tool_suit.Information.Operations.{increment_counter}
use arinc_615a_cli_tool_suit.ProtocolFilename.{
  ProtocolFileType, download_status, media_defined_download_request,
  operator_defined_download_answer, operator_defined_download_list,
}
use arinc_615a_cli_tool_suit.RawData.{RawDataOps}
use arinc_615a_cli_tool_suit.Status.{
  DownloadKind, FinalStatus, final_aborted_by_target_hardware, media_defined, operation_accepted,
  operator_defined, status_code_of_final, version_value,
}
use arinc_615a_cli_tool_suit.Target.Operation.{
  TargetAction, TargetOperation, TargetOutcome, protocol_file_operation, receives_request_file,
  reports_answer, reports_request, throws, trigger_status_transmission,
  trigger_status_transmission_timer, writes_file,
}
use arinc_615a_cli_tool_suit.Target.Operation.State.{
  force_acceptance, progress_code, refusal, set_target_status, timer_run_out,
  transmission_completed,
}
use arinc_615a_cli_tool_suit.Tftp.{
  RequestType, TftpTransferStatus, TransferStatus, successful, tftp_successful,
}
use arinc_615a_cli_tool_suit.Tftp.ClientOperation.{TimerResult, operation_aborted}

-- The type of the file that the target takes from the host.
abbrev pub received_type : DownloadKind → ProtocolFileType
received_type media_defined = media_defined_download_request
received_type operator_defined = operator_defined_download_answer

-- The `_operation_v` tell whether the pointer is set: that of the status file, of the request or answer
-- file, and of the list file, which only the operator defined download sends.
pub record TargetDownload : Type 0 where
  pub target_base : TargetOperation
  pub status_v : DownloadStatus
  pub status_operation_v : Bool
  pub received_file_operation_v : Bool
  pub list_operation_v : Bool

abbrev pub TargetDownloadOutcome : Type 0
TargetDownloadOutcome = TargetDownload × List TargetAction

-- A call of the base class.
abbrev pub with_download_base : TargetDownload → TargetOutcome → TargetDownloadOutcome
with_download_base s (base, actions) = (record s { target_base = base }, actions)

abbrev pub with_download_status : TargetDownload → Status → TargetDownload
with_download_status s status = record s { status_v = record s.status_v { status = status } }

-- `triggerStatusTransmission()`, where it is wanted.
abbrev pub transmit_download_if : Bool → TargetDownload → TargetDownload
transmit_download_if true s = record s { target_base = trigger_status_transmission s.target_base }
transmit_download_if false s = s

unfoldable pub download_accepted : TargetDownload → TargetDownload
download_accepted s =
    transmit_download_if true
      (with_download_status s (set_target_status operation_accepted [] 0 s.status_v.status))

unfoldable pub download_in_progress : Bool → ℕ → List ℕ → TargetDownload → TargetDownload
download_in_progress immediate estimated_time description s = transmit_download_if immediate (
    with_download_status s
      (set_target_status (progress_code description) description estimated_time s.status_v.status))

-- The overload with the ratio of the list.
unfoldable pub download_in_progress_ratio :
    Bool → ℕ → List ℕ → Ratio → TargetDownload → TargetDownload
download_in_progress_ratio immediate estimated_time description list_ratio s =
    let status =
      set_target_status (progress_code description) description estimated_time s.status_v.status in
    transmit_download_if immediate
      (record s { status_v = record s.status_v { status = status; list_ratio = list_ratio } })

unfoldable pub download_finished : FinalStatus → List ℕ → TargetDownload → TargetDownload
download_finished status description s = transmit_download_if true (
    with_download_status s
      (set_target_status (status_code_of_final status) description 0 s.status_v.status))

-- `transferFile`.
unfoldable pub send_data_file : List ℕ → List ℕ → TargetDownload → TargetDownloadOutcome
send_data_file filename part_number s = (s, writes_file filename part_number ∷ [])

-- `statusFileCompleted`.
unfoldable pub download_status_file_completed :
    DownloadStatus → TransferStatus → TargetDownload → TargetDownloadOutcome
download_status_file_completed sent status s =
    with_download_base (record s { status_operation_v = false })
      (transmission_completed sent.status status s.target_base)

-- `tftpRequest`: the one file that the host may write depends on the class.
unfoldable pub download_request :
    DownloadKind → ℕ → RequestType → List ℕ → TargetDownload → TargetDownloadOutcome
download_request kind address request_type filename s =
    elim (refusal address request_type (received_type kind) filename s.target_base) [
      | some answer ↦ (s, answer ∷ [])
      | none ↦ (record s { received_file_operation_v = true }, receives_request_file ∷ [])
    ]

-- The try block of `requestFileCompleted`.
unfoldable pub download_request_read :
    Result DownloadRequestFile → TargetDownload → TargetDownloadOutcome
download_request_read (err e) s =
    if is_caught e
    then (
      download_finished final_aborted_by_target_hardware (text_codes "Request file format error") s,
      [],
    )
    else (s, throws e ∷ [])
download_request_read (ok file) s =
    if not (version_value file.version == version_value s.target_base.protocol_version_v)
    then (
      download_finished final_aborted_by_target_hardware
          (text_codes "Request file protocol version invalid") s,
      [],
    )
    else (s, reports_request file.files file.user_defined_data ∷ [])

-- The try block of `answerFileCompleted`.
unfoldable pub download_answer_read :
    Result DownloadAnswerFile → TargetDownload → TargetDownloadOutcome
download_answer_read (err e) s =
    if is_caught e
    then (
      download_finished final_aborted_by_target_hardware (text_codes "Answer file format error") s,
      [],
    )
    else (s, throws e ∷ [])
download_answer_read (ok file) s =
    if not (version_value file.version == version_value s.target_base.protocol_version_v)
    then (
      download_finished final_aborted_by_target_hardware
          (text_codes "Answer file protocol version invalid") s,
      [],
    )
    else (s, reports_answer file.files ∷ [])

-- The end of `downloadingList`.
unfoldable pub list_encoded : Result (List ℕ) → TargetDownload → TargetDownloadOutcome
list_encoded (err e) s = (s, throws e ∷ [])
list_encoded (ok file) s = (
  record s { list_operation_v = true },
  protocol_file_operation operator_defined_download_list file s.target_base ∷ [],
)

unfoldable pub downloading_list_completed : TransferStatus → TargetDownload → TargetDownload
downloading_list_completed successful s = record s { list_operation_v = false }
downloading_list_completed _ s =
    download_finished final_aborted_by_target_hardware
      (text_codes "Target Information transmission failed") (record s { list_operation_v = false })

-- The end of `statusFile`: the file is sent, the counter is incremented, and the timer is armed.
unfoldable pub download_status_encoded : Result (List ℕ) → TargetDownload → TargetDownloadOutcome
download_status_encoded (err e) s = (s, throws e ∷ [])
download_status_encoded (ok file) s = (
  record s {
    status_operation_v = true;
    status_v = record s.status_v { status = increment_counter s.status_v.status };
    target_base = trigger_status_transmission_timer s.target_base;
  },
  protocol_file_operation download_status file s.target_base ∷ [],
)

module _ (raw : RawDataOps) where
  unfoldable pub download_status_file : TargetDownload → TargetDownloadOutcome
  download_status_file s =
      let s' = with_download_status s (force_acceptance s.status_v.status) in
      download_status_encoded
        (DownloadStatusFile.encode raw
          (record { version = s.target_base.protocol_version_v; status = s'.status_v }))
        s'

  -- `statusTransmissionTimerHandler`, with this operation's `statusFile`. The timer has no handler
  -- pending when its handler runs, but where the wait was aborted by a new one or a cancellation.
  unfoldable pub download_timer_handler : TimerResult → TargetDownload → TargetDownloadOutcome
  download_timer_handler operation_aborted s = (s, [])
  download_timer_handler _ s =
      download_status_file (record s { target_base = timer_run_out s.target_base })

  unfoldable pub downloading_list :
      List DownloadFileInformation → TargetDownload → TargetDownloadOutcome
  downloading_list files s =
      list_encoded
        (DownloadListFile.encode raw
          (record { version = s.target_base.protocol_version_v; files = files }))
        s

  -- `requestFileCompleted` and `answerFileCompleted`.
  unfoldable pub download_file_received :
      DownloadKind → TftpTransferStatus → List ℕ → TargetDownload → TargetDownloadOutcome
  download_file_received media_defined tftp_successful raw_file s =
      download_request_read (DownloadRequestFile.decode raw DownloadRequestFile.default raw_file)
        (record s { received_file_operation_v = false })
  download_file_received operator_defined tftp_successful raw_file s =
      download_answer_read (DownloadAnswerFile.decode raw DownloadAnswerFile.default raw_file)
        (record s { received_file_operation_v = false })
  download_file_received media_defined _ raw_file s = (
    download_finished final_aborted_by_target_hardware
        (text_codes "Receive dowmload request file failed")
        (record s { received_file_operation_v = false }),
    [],
  )
  download_file_received operator_defined _ raw_file s = (
    download_finished final_aborted_by_target_hardware
        (text_codes "Receive download answer file failed")
        (record s { received_file_operation_v = false }),
    [],
  )
