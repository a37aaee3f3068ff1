-- ===== src/Target/Operation/State.antt =====
-- lib/arinc_615a/target/implementation: what the operations of the target do alike. Each function
-- stands in UploadOperationImpl.cpp, MediaDefinedDownloadOperationImpl.cpp and
-- OperatorDefinedDownloadOperationImpl.cpp in the same words, and those on the status in
-- InformationOperationImpl.cpp too.
use arinc_615a_cli_tool_suit.Base.{
  Bool, List, Option, [], false, if◌then◌else◌, is_empty, none, not, some, text_codes, true, ℕ,
  ◌==◌, ◌∷◌,
}
use arinc_615a_cli_tool_suit.Information.{Status}
use arinc_615a_cli_tool_suit.Information.Operations.{set_code, set_status}
use arinc_615a_cli_tool_suit.ProtocolFilename.{ProtocolFileType, filename_of_string, type_value}
use arinc_615a_cli_tool_suit.Status.{
  StatusCode, abort_by_dlp, abort_by_operator, final_aborted_by_target_hardware, final_status,
  invalid_status, load_part_number_or_download_file_failed, operation_aborted_by_dlp,
  operation_aborted_by_operator, operation_aborted_by_target_hw, operation_accepted,
  operation_completed, operation_in_progress, operation_in_progress_additional_info,
  operation_not_accepted, operation_not_supported,
}
use arinc_615a_cli_tool_suit.Target.Operation.{
  TargetAction, TargetOperation, TargetOutcome, finalise, refuses_address, refuses_filename,
  refuses_read, reports_sent, requests_abort, trigger_status_transmission_timer,
}
use arinc_615a_cli_tool_suit.Tftp.{
  RequestType, TransferStatus, aborted_by_dlp, aborted_by_operator, read_request, successful,
  write_request,
}

-- `status( code, description, estimatedTime )`.
unfoldable pub set_target_status : StatusCode → List ℕ → ℕ → Status → Status
set_target_status code description estimated_time s = record (set_status code description s) {
  estimated_time = estimated_time;
}

-- The code of a status in progress. The sources pass `description.empty()` and `std::move( description )`
-- as arguments of one call, of which C++ leaves the order open: here the first is evaluated first.
abbrev pub progress_code : List ℕ → StatusCode
progress_code description =
    if is_empty description then operation_in_progress else operation_in_progress_additional_info

-- The head of `statusFile`: a status that was never set is sent as accepted.
unfoldable pub force_acceptance : Status → Status
force_acceptance s = elim s.code [ invalid_status ↦ set_code operation_accepted s | _ ↦ s ]

-- The switch in the loops of `loadsFinished` and `filesFinished`.
abbrev pub is_part_final : StatusCode → Bool
is_part_final operation_not_accepted = true
is_part_final operation_not_supported = true
is_part_final operation_completed = true
is_part_final operation_aborted_by_target_hw = true
is_part_final operation_aborted_by_dlp = true
is_part_final operation_aborted_by_operator = true
is_part_final load_part_number_or_download_file_failed = true
is_part_final _ = false

-- The second switch of `statusFileCompleted`, over the code of the status that was sent.
unfoldable pub status_transmitted : Status → TargetOperation → TargetOutcome
status_transmitted sent s = elim sent.code [
  | operation_accepted ↦ (trigger_status_transmission_timer s, [])
  | operation_in_progress ↦ (trigger_status_transmission_timer s, [])
  | operation_in_progress_additional_info ↦ (trigger_status_transmission_timer s, [])
  | _ ↦ finalise (final_status sent.code) sent.description s
]

-- `statusFileCompleted`; `sent` is the copy of the status that was bound to the handler.
unfoldable pub transmission_completed : Status → TransferStatus → TargetOperation → TargetOutcome
transmission_completed sent successful s =
    let outcome = status_transmitted sent s in (outcome.0, reports_sent sent ∷ outcome.1)
transmission_completed sent aborted_by_dlp s = (s, requests_abort abort_by_dlp ∷ [])
transmission_completed sent aborted_by_operator s = (s, requests_abort abort_by_operator ∷ [])
transmission_completed sent _ s =
    finalise final_aborted_by_target_hardware (text_codes "Status transmission failed") s

-- The guards of `tftpRequest`, with the address from which the request comes and the type of the one
-- file that the host may write.
unfoldable pub refusal :
    ℕ → RequestType → ProtocolFileType → List ℕ → TargetOperation → Option TargetAction
refusal address request_type expected filename s =
    if not (s.host_address_v == address) then some refuses_address else elim request_type [
      | read_request ↦ some refuses_read
      | write_request ↦
          if not (type_value expected == type_value (filename_of_string filename).file_type)
          then some refuses_filename
          else none
    ]

-- `statusTransmissionTimerHandler` behind its guard: the timer has no handler pending.
abbrev pub timer_run_out : TargetOperation → TargetOperation
timer_run_out s = record s { status_transmission_timer_v = none }
