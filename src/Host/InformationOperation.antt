-- ===== src/Host/InformationOperation.antt =====
-- lib/arinc_615a/host/implementation/InformationOperationImpl.cpp: the host asks a target for its
-- hardware and part numbers.
pub mod Progress
pub mod History
use arinc_615a_cli_tool_suit.Base.{
  Bool, List, Result, [], err, false, if◌then◌else◌, is_caught, not, ok, true, ℕ, ◌++◌, ◌==◌, ◌∷◌,
}
use arinc_615a_cli_tool_suit.Files.InformationStatusFile
use arinc_615a_cli_tool_suit.Files.InformationStatusFile.{InformationStatusFile}
use arinc_615a_cli_tool_suit.Files.LoadConfigurationListFile
use arinc_615a_cli_tool_suit.Files.LoadConfigurationListFile.{LoadConfigurationListFile}
use arinc_615a_cli_tool_suit.Host.Operation.{
  HostAction, HostOperation, HostOutcome, abort_protocol, aborts_list, answers_only_write,
  answers_wrong_filename, answers_wrong_target, check_request, do_abort, finished, given,
  host_throws, initialise, invalid_protocol_file, is_aborted, no_description, receives_list,
  receives_status, remove, reports_hardware, reports_status, status_not_initiated,
  status_not_received, trigger_dlp_timeout, uncaught,
}
use arinc_615a_cli_tool_suit.Information.{Status}
use arinc_615a_cli_tool_suit.ProtocolFilename.{
  ProtocolFileType, filename_of_string, load_configuration_initialization, load_configuration_list,
  load_configuration_status,
}
use arinc_615a_cli_tool_suit.RawData.{RawDataOps}
use arinc_615a_cli_tool_suit.Status.{
  arinc_615a_34, invalid_status, operation_aborted_by_dlp, operation_aborted_by_operator,
  operation_aborted_by_target_hw, operation_accepted, operation_completed, operation_in_progress,
  operation_in_progress_additional_info, operation_not_accepted, operation_not_supported,
}
use arinc_615a_cli_tool_suit.Target.Operation.State.{refusal}
use arinc_615a_cli_tool_suit.Tftp.{
  RequestType, TftpTransferStatus, read_request, tftp_successful, write_request,
}

-- `status_file_operations_v` holds the operations by a number, and `list_file_operation_v` tells
-- whether the pointer is set.
pub record InformationOperation : Type 0 where
  pub base : HostOperation
  pub wait_for_final_status_v : Bool
  pub status_file_operations_v : List ℕ
  pub list_file_operation_v : Bool

abbrev pub InformationOutcome : Type 0
InformationOutcome = InformationOperation × List HostAction

-- A call of the base class.
abbrev pub with_base : InformationOperation → HostOutcome → InformationOutcome
with_base s (base, actions) = (record s { base = base }, actions)

unfoldable pub start_information : InformationOperation → InformationOutcome
start_information s =
    with_base (record s { wait_for_final_status_v = false })
      (initialise load_configuration_initialization s.base)

-- `statusFileRequest`; `operation` is the new operation of the TFTP server.
unfoldable pub status_file_request : ℕ → InformationOperation → InformationOutcome
status_file_request operation s =
    let (aborted_now, outcome) = is_aborted s.base in
    if aborted_now then with_base s outcome else (
      record s { status_file_operations_v = operation ∷ s.status_file_operations_v },
      receives_status ∷ [],
    )

-- The switch over the code of a status file.
unfoldable pub handle_status : Status → InformationOperation → InformationOutcome
handle_status status s = elim status.code [
  | operation_not_accepted ↦ with_base s (finished status.code (given status.description) s.base)
  | operation_not_supported ↦ with_base s (finished status.code (given status.description) s.base)
  | operation_completed ↦ with_base s (finished status.code (given status.description) s.base)
  | operation_aborted_by_target_hw ↦
      with_base s (finished status.code (given status.description) s.base)
  | operation_aborted_by_dlp ↦ with_base s (finished status.code (given status.description) s.base)
  | operation_aborted_by_operator ↦
      with_base s (finished status.code (given status.description) s.base)
  | operation_accepted ↦
      (record s { wait_for_final_status_v = true; base = trigger_dlp_timeout 0 s.base }, [])
  | operation_in_progress ↦ (
    record s {
      wait_for_final_status_v = true;
      base = trigger_dlp_timeout status.exception_timer s.base;
    },
    [],
  )
  | operation_in_progress_additional_info ↦ (
    record s {
      wait_for_final_status_v = true;
      base = trigger_dlp_timeout status.exception_timer s.base;
    },
    [],
  )
  | _ ↦ with_base s (finished operation_aborted_by_dlp no_description s.base)
]

-- The try block of `statusFileCompleted`: a file that cannot be read is only logged.
unfoldable pub status_read :
    Result InformationStatusFile → InformationOperation → InformationOutcome
status_read (err e) s = (s, uncaught e)
status_read (ok file) s =
    let outcome = handle_status file.status s in (outcome.0, reports_status file.status ∷ outcome.1)

-- `listFileRequest`: an active reception is aborted first.
unfoldable pub list_file_request : InformationOperation → InformationOutcome
list_file_request s = (
  record s { list_file_operation_v = true },
  (if s.list_file_operation_v then aborts_list ∷ [] else []) ++ receives_list ∷ [],
)

-- Where the list file is of no use.
unfoldable pub list_failed : InformationOperation → InformationOutcome
list_failed s =
    if not s.wait_for_final_status_v
    then with_base s (finished operation_aborted_by_dlp invalid_protocol_file s.base)
    else with_base s (do_abort abort_protocol s.base)

-- The try block of `listFileCompleted`.
unfoldable pub list_read :
    Result LoadConfigurationListFile → Bool → InformationOperation → InformationOutcome
list_read (err e) integrity_information s =
    if is_caught e then list_failed s else (s, host_throws e ∷ [])
list_read (ok file) integrity_information s =
    let outcome =
      if not s.wait_for_final_status_v
      then with_base s (finished operation_completed no_description s.base)
      else (record s { base = trigger_dlp_timeout 0 s.base }, []) in
    (outcome.0, reports_hardware file.targets_hardware integrity_information ∷ outcome.1)

-- What a status file is read into.
abbrev pub empty_status_file : InformationStatusFile
empty_status_file = record {
  version = arinc_615a_34;
  status = record {
    counter = 0;
    exception_timer = 0;
    estimated_time = 0;
    code = invalid_status;
    description = [];
  };
}

module _ (raw : RawDataOps) where
  -- `statusFileCompleted`, behind the check that the operation is one of those started.
  unfoldable pub status_received :
      TftpTransferStatus → List ℕ → InformationOperation → InformationOutcome
  status_received tftp_successful raw_file s =
      status_read (InformationStatusFile.decode raw empty_status_file raw_file) s
  status_received _ raw_file s =
      with_base s (finished operation_aborted_by_dlp status_not_received s.base)

  unfoldable pub status_file_completed :
      ℕ → TftpTransferStatus → List ℕ → InformationOperation → InformationOutcome
  status_file_completed operation status raw_file s =
      let (removed, rest) = remove operation s.status_file_operations_v in
      let s' : InformationOperation = record s { status_file_operations_v = rest } in
      if not (removed == 1)
      then with_base s' (finished operation_aborted_by_dlp status_not_initiated s'.base)
      else status_received status raw_file s'

  -- `integrity_information` is the comparison of the check value of the file with that of the request.
  unfoldable pub list_file_completed :
      Bool → TftpTransferStatus → List ℕ → InformationOperation → InformationOutcome
  list_file_completed integrity_information tftp_successful raw_file s =
      list_read (LoadConfigurationListFile.decode raw LoadConfigurationListFile.default raw_file)
        integrity_information (record s { list_file_operation_v = false })
  list_file_completed integrity_information _ raw_file s =
      list_failed (record s { list_file_operation_v = false })

-- The switch of `tftpRequest`.
unfoldable pub file_request : ProtocolFileType → ℕ → InformationOperation → InformationOutcome
file_request load_configuration_list operation s = list_file_request s
file_request load_configuration_status operation s = status_file_request operation s
file_request _ operation s = (s, answers_wrong_filename ∷ [])

-- `tftpRequest`: after the answer to a read request the source goes on.
unfoldable pub tftp_request : RequestType → List ℕ → ℕ → InformationOperation → InformationOutcome
tftp_request request_type filename operation s =
    if not (check_request filename s.base)
    then (s, answers_wrong_target ∷ [])
    else let outcome = file_request (filename_of_string filename).file_type operation s in
      let refusal : List HostAction = elim request_type [
        | read_request ↦ answers_only_write ∷ []
        | write_request ↦ []
      ] in
      (outcome.0, refusal ++ outcome.1)
