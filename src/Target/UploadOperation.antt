-- ===== src/Target/UploadOperation.antt =====
-- lib/arinc_615a/target/implementation/UploadOperationImpl.cpp: the target takes loads from a host.
pub mod Loads
pub mod Events
pub mod Ready
pub mod Steps
pub mod Preservation
pub mod History
use arinc_615a_cli_tool_suit.Base.{
  Bool, List, Result, [], err, false, if◌then◌else◌, is_caught, none, not, ok, some, text_codes,
  true, ℕ, ◌==◌, ◌∷◌,
}
use arinc_615a_cli_tool_suit.Files.Ratio.{Ratio}
use arinc_615a_cli_tool_suit.Files.UploadRequestFile
use arinc_615a_cli_tool_suit.Files.UploadRequestFile.{UploadRequestFile}
use arinc_615a_cli_tool_suit.Files.UploadStatusFile
use arinc_615a_cli_tool_suit.Files.UploadStatusFile.{UploadStatusFile}
use arinc_615a_cli_tool_suit.Information.{Status, UploadStatus}
use arinc_615a_cli_tool_suit.Information.Operations.{increment_counter}
use arinc_615a_cli_tool_suit.ProtocolFilename.{upload_request, upload_status}
use arinc_615a_cli_tool_suit.RawData.{RawDataOps}
use arinc_615a_cli_tool_suit.Status.{
  FinalStatus, final_aborted_by_target_hardware, operation_accepted, status_code_of_final,
  version_value,
}
use arinc_615a_cli_tool_suit.Target.Operation.{
  TargetAction, TargetOperation, TargetOutcome, protocol_file_operation, reads_file,
  receives_request_file, reports_loads, throws, trigger_status_transmission,
  trigger_status_transmission_timer,
}
use arinc_615a_cli_tool_suit.Target.Operation.State.{
  force_acceptance, progress_code, refusal, set_target_status, timer_run_out,
  transmission_completed,
}
use arinc_615a_cli_tool_suit.Tftp.{RequestType, TftpTransferStatus, TransferStatus, tftp_successful}
use arinc_615a_cli_tool_suit.Tftp.ClientOperation.{TimerResult, operation_aborted}

-- `status_operation_v` and `request_file_operation_v` tell whether the pointer is set.
pub record TargetUpload : Type 0 where
  pub target_base : TargetOperation
  pub status_v : UploadStatus
  pub status_operation_v : Bool
  pub request_file_operation_v : Bool

abbrev pub TargetUploadOutcome : Type 0
TargetUploadOutcome = TargetUpload × List TargetAction

-- A call of the base class.
abbrev pub with_target_base : TargetUpload → TargetOutcome → TargetUploadOutcome
with_target_base s (base, actions) = (record s { target_base = base }, actions)

abbrev pub with_status : TargetUpload → Status → TargetUpload
with_status s status = record s { status_v = record s.status_v { status = status } }

-- `triggerStatusTransmission()`, where it is wanted.
abbrev pub transmit_if : Bool → TargetUpload → TargetUpload
transmit_if true s = record s { target_base = trigger_status_transmission s.target_base }
transmit_if false s = s

unfoldable pub upload_accepted : TargetUpload → TargetUpload
upload_accepted s =
    transmit_if true (with_status s (set_target_status operation_accepted [] 0 s.status_v.status))

unfoldable pub upload_in_progress : Bool → ℕ → List ℕ → TargetUpload → TargetUpload
upload_in_progress immediate estimated_time description s = transmit_if immediate (
    with_status s
      (set_target_status (progress_code description) description estimated_time s.status_v.status))

-- The overload with the ratio of the list.
unfoldable pub upload_in_progress_ratio : Bool → ℕ → List ℕ → Ratio → TargetUpload → TargetUpload
upload_in_progress_ratio immediate estimated_time description list_ratio s =
    let status =
      set_target_status (progress_code description) description estimated_time s.status_v.status in
    transmit_if immediate
      (record s { status_v = record s.status_v { status = status; list_ratio = list_ratio } })

unfoldable pub upload_finished : FinalStatus → List ℕ → TargetUpload → TargetUpload
upload_finished status description s = transmit_if true (
    with_status s (set_target_status (status_code_of_final status) description 0 s.status_v.status))

-- `transferFile`.
unfoldable pub transfer_file : List ℕ → List ℕ → TargetUpload → TargetUploadOutcome
transfer_file filename part_number s = (s, reads_file filename part_number ∷ [])

-- `statusFileCompleted`.
unfoldable pub upload_status_file_completed :
    UploadStatus → TransferStatus → TargetUpload → TargetUploadOutcome
upload_status_file_completed sent status s =
    with_target_base (record s { status_operation_v = false })
      (transmission_completed sent.status status s.target_base)

-- `tftpRequest`.
unfoldable pub upload_target_request : ℕ → RequestType → List ℕ → TargetUpload → TargetUploadOutcome
upload_target_request address request_type filename s =
    elim (refusal address request_type upload_request filename s.target_base) [
      | some answer ↦ (s, answer ∷ [])
      | none ↦ (record s { request_file_operation_v = true }, receives_request_file ∷ [])
    ]

-- The try block of `requestFileCompleted`.
unfoldable pub request_file_read : Result UploadRequestFile → TargetUpload → TargetUploadOutcome
request_file_read (err e) s =
    if is_caught e
    then (
      upload_finished final_aborted_by_target_hardware (text_codes "Request file format error") s,
      [],
    )
    else (s, throws e ∷ [])
request_file_read (ok file) s =
    if not (version_value file.version == version_value s.target_base.protocol_version_v)
    then (
      upload_finished final_aborted_by_target_hardware
          (text_codes "Request file protocol version invalid") s,
      [],
    )
    else (s, reports_loads file.loads ∷ [])

-- The end of `statusFile`: the file is sent, the counter is incremented, and the timer is armed.
unfoldable pub upload_status_encoded : Result (List ℕ) → TargetUpload → TargetUploadOutcome
upload_status_encoded (err e) s = (s, throws e ∷ [])
upload_status_encoded (ok file) s = (
  record s {
    status_operation_v = true;
    status_v = record s.status_v { status = increment_counter s.status_v.status };
    target_base = trigger_status_transmission_timer s.target_base;
  },
  protocol_file_operation upload_status file s.target_base ∷ [],
)

module _ (raw : RawDataOps) where
  unfoldable pub upload_status_file : TargetUpload → TargetUploadOutcome
  upload_status_file s =
      let s' = with_status s (force_acceptance s.status_v.status) in
      upload_status_encoded
        (UploadStatusFile.encode raw
          (record { version = s.target_base.protocol_version_v; status = s'.status_v }))
        s'

  -- `statusTransmissionTimerHandler`, with this operation's `statusFile`. The timer has no handler
  -- pending when its handler runs, but where the wait was aborted by a new one or a cancellation.
  unfoldable pub upload_timer_handler : TimerResult → TargetUpload → TargetUploadOutcome
  upload_timer_handler operation_aborted s = (s, [])
  upload_timer_handler _ s =
      upload_status_file (record s { target_base = timer_run_out s.target_base })

  unfoldable pub request_file_completed :
      TftpTransferStatus → List ℕ → TargetUpload → TargetUploadOutcome
  request_file_completed tftp_successful raw_file s =
      request_file_read (UploadRequestFile.decode raw UploadRequestFile.default raw_file)
        (record s { request_file_operation_v = false })
  request_file_completed _ raw_file s = (
    upload_finished final_aborted_by_target_hardware (text_codes "Request file transmission failed")
        (record s { request_file_operation_v = false }),
    [],
  )
