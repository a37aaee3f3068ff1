-- ===== src/Target/InformationOperation.antt =====
-- lib/arinc_615a/target/implementation/InformationOperationImpl.cpp: the target tells a host its
-- hardware and part numbers. The check value of the list, which goes into an option, is left out.
pub mod Events
pub mod Steps
pub mod Preservation
pub mod History
use arinc_615a_cli_tool_suit.Base.{
  Bool, List, Result, [], err, false, if◌then◌else◌, ok, text_codes, true, ℕ, ◌∷◌,
}
use arinc_615a_cli_tool_suit.Files.InformationStatusFile
use arinc_615a_cli_tool_suit.Files.InformationStatusFile.{InformationStatusFile}
use arinc_615a_cli_tool_suit.Files.LoadConfigurationListFile
use arinc_615a_cli_tool_suit.Files.LoadConfigurationListFile.{LoadConfigurationListFile}
use arinc_615a_cli_tool_suit.Information.{Status, TargetHardware}
use arinc_615a_cli_tool_suit.Information.Operations.{increment_counter}
use arinc_615a_cli_tool_suit.ProtocolFilename.{load_configuration_list, load_configuration_status}
use arinc_615a_cli_tool_suit.RawData.{RawDataOps}
use arinc_615a_cli_tool_suit.Status.{
  FinalStatus, StatusCode, abort_by_dlp, abort_by_operator, final_aborted_by_target_hardware,
  final_completed, final_status, invalid_status, operation_accepted, operation_completed,
  operation_in_progress, operation_in_progress_additional_info, status_code_of_final,
}
use arinc_615a_cli_tool_suit.Target.Operation.{
  TargetAction, TargetOperation, TargetOutcome, finalise, protocol_file_operation, refuses_request,
  reports_sent, requests_abort, throws, trigger_status_transmission_timer,
}
use arinc_615a_cli_tool_suit.Target.Operation.State.{
  force_acceptance, progress_code, set_target_status, timer_run_out,
}
use arinc_615a_cli_tool_suit.Tftp.{TransferStatus, aborted_by_dlp, aborted_by_operator, successful}
use arinc_615a_cli_tool_suit.Tftp.ClientOperation.{TimerResult, operation_aborted}

-- `status_operation_v` and `list_operation_v` tell whether the pointer is set.
pub record TargetInformation : Type 0 where
  pub target_base : TargetOperation
  pub status_v : Status
  pub status_operation_v : Bool
  pub list_operation_v : Bool

abbrev pub TargetInformationOutcome : Type 0
TargetInformationOutcome = TargetInformation × List TargetAction

-- A call of the base class.
abbrev pub with_information_base : TargetInformation → TargetOutcome → TargetInformationOutcome
with_information_base s (base, actions) = (record s { target_base = base }, actions)

-- `status( code, description, estimatedTime )`.
abbrev pub set_information_status : StatusCode → List ℕ → ℕ → TargetInformation → TargetInformation
set_information_status code description estimated_time s = record s {
  status_v = set_target_status code description estimated_time s.status_v;
}

-- The default of `estimatedTime` in `inProgress`: the pattern of -1.
abbrev pub unknown_time : ℕ
unknown_time = 65535

-- The end of `statusFile`: the file is sent, the counter is incremented, and the timer is armed.
unfoldable pub information_status_encoded :
    Result (List ℕ) → TargetInformation → TargetInformationOutcome
information_status_encoded (err e) s = (s, throws e ∷ [])
information_status_encoded (ok file) s = (
  record s {
    status_operation_v = true;
    status_v = increment_counter s.status_v;
    target_base = trigger_status_transmission_timer s.target_base;
  },
  protocol_file_operation load_configuration_status file s.target_base ∷ [],
)

-- The end of `targetInformation`.
unfoldable pub target_information_encoded :
    Result (List ℕ) → TargetInformation → TargetInformationOutcome
target_information_encoded (err e) s = (s, throws e ∷ [])
target_information_encoded (ok file) s = (
  record s { list_operation_v = true },
  protocol_file_operation load_configuration_list file s.target_base ∷ [],
)

-- `tftpRequest`: no request is expected.
unfoldable pub information_request : TargetInformation → TargetInformationOutcome
information_request s = (s, refuses_request ∷ [])

module _ (raw : RawDataOps) where
  unfoldable pub information_status_file : TargetInformation → TargetInformationOutcome
  information_status_file s =
      let s' : TargetInformation = record s { status_v = force_acceptance s.status_v } in
      information_status_encoded
        (InformationStatusFile.encode raw
          (record { version = s.target_base.protocol_version_v; status = s'.status_v }))
        s'

  unfoldable pub information_accepted : TargetInformation → TargetInformationOutcome
  information_accepted s =
      information_status_file (set_information_status operation_accepted [] 0 s)

  unfoldable pub information_in_progress :
      Bool → ℕ → List ℕ → TargetInformation → TargetInformationOutcome
  information_in_progress immediate estimated_time description s =
      let s' = set_information_status (progress_code description) description estimated_time s in
      if immediate then information_status_file s' else (s', [])

  unfoldable pub information_finished :
      FinalStatus → List ℕ → TargetInformation → TargetInformationOutcome
  information_finished status description s =
      information_status_file (set_information_status (status_code_of_final status) description 0 s)

  unfoldable pub target_information :
      List TargetHardware → TargetInformation → TargetInformationOutcome
  target_information hardware s =
      target_information_encoded
        (LoadConfigurationListFile.encode raw
          (record { version = s.target_base.protocol_version_v; targets_hardware = hardware }))
        s

  -- The second switch of `statusFileCompleted`: an acceptance is followed by a progress, with the
  -- estimated time that `inProgress` has by default.
  unfoldable pub information_transmitted : Status → TargetInformation → TargetInformationOutcome
  information_transmitted sent s = elim sent.code [
    | operation_accepted ↦ information_in_progress true unknown_time [] s
    | operation_in_progress ↦
        with_information_base s (trigger_status_transmission_timer s.target_base, [])
    | operation_in_progress_additional_info ↦
        with_information_base s (trigger_status_transmission_timer s.target_base, [])
    | _ ↦ with_information_base s (finalise (final_status sent.code) sent.description s.target_base)
  ]

  -- `statusFileCompleted`; `sent` is the copy of the status that was bound to the handler.
  unfoldable pub information_status_completed :
      Status → TransferStatus → TargetInformation → TargetInformationOutcome
  information_status_completed sent successful s =
      let outcome = information_transmitted sent (record s { status_operation_v = false }) in
      (outcome.0, reports_sent sent ∷ outcome.1)
  information_status_completed sent aborted_by_dlp s =
      (record s { status_operation_v = false }, requests_abort abort_by_dlp ∷ [])
  information_status_completed sent aborted_by_operator s =
      (record s { status_operation_v = false }, requests_abort abort_by_operator ∷ [])
  information_status_completed sent _ s =
      with_information_base (record s { status_operation_v = false })
        (finalise final_aborted_by_target_hardware (text_codes "Status transmission failed")
          s.target_base)

  -- The end of `targetInformationCompleted`, by the code of the status: where none was sent there is
  -- nothing more to send.
  unfoldable pub information_sent : StatusCode → TargetInformation → TargetInformationOutcome
  information_sent invalid_status s =
      with_information_base s (finalise final_completed [] s.target_base)
  information_sent _ s = information_status_file (set_information_status operation_completed [] 0 s)

  unfoldable pub target_information_completed :
      TransferStatus → TargetInformation → TargetInformationOutcome
  target_information_completed successful s =
      information_sent s.status_v.code (record s { list_operation_v = false })
  target_information_completed _ s =
      information_finished final_aborted_by_target_hardware
        (text_codes "Target Information transmission failed")
        (record s { list_operation_v = false })

  -- `statusTransmissionTimerHandler`, with this operation's `statusFile`.
  unfoldable pub information_timer_handler :
      TimerResult → TargetInformation → TargetInformationOutcome
  information_timer_handler operation_aborted s = (s, [])
  information_timer_handler _ s =
      information_status_file (record s { target_base = timer_run_out s.target_base })
