-- ===== src/Host/UploadOperation.antt =====
-- lib/arinc_615a/host/implementation/UploadOperationImpl.cpp: the host asks a target to take loads. The
-- options of a request of the target, which go to the handler as they are, are left out.
pub mod Progress
pub mod History
pub mod Actions
pub mod LoadList
use arinc_615a_cli_tool_suit.Base.{
  Bool, List, Result, [], err, false, if◌then◌else◌, not, ok, true, ℕ, ◌++◌, ◌==◌, ◌∷◌,
}
use arinc_615a_cli_tool_suit.Files.UploadRequestFile
use arinc_615a_cli_tool_suit.Files.UploadRequestFile.{UploadRequestFile}
use arinc_615a_cli_tool_suit.Files.UploadStatusFile
use arinc_615a_cli_tool_suit.Files.UploadStatusFile.{UploadStatusFile}
use arinc_615a_cli_tool_suit.Host.Operation.{
  HostAction, HostOperation, HostOutcome, abort_protocol, answers_wrong_filename,
  answers_wrong_target, check_request, do_abort, finished, forwards_file_request, given,
  host_throws, initialise, is_aborted, no_description, receives_status, remove,
  reports_upload_status, sends_load_list, status_not_initiated, status_not_received,
  trigger_dlp_timeout, uncaught,
}
use arinc_615a_cli_tool_suit.Information.{Status, UploadLoad}
use arinc_615a_cli_tool_suit.ProtocolFilename.{
  ProtocolFileType, filename_of_string, filename_to_string, upload_initialization, upload_request,
  upload_status,
}
use arinc_615a_cli_tool_suit.RawData.{RawDataOps}
use arinc_615a_cli_tool_suit.Status.{
  arinc_615a_34, invalid_status, operation_aborted_by_dlp, operation_aborted_by_operator,
  operation_aborted_by_target_hw, operation_accepted, operation_completed, operation_in_progress,
  operation_in_progress_additional_info, operation_not_accepted, operation_not_supported,
}
use arinc_615a_cli_tool_suit.Target.Operation.State.{refusal}
use arinc_615a_cli_tool_suit.Tftp.{
  RequestType, TftpTransferStatus, TransferStatus, read_request, successful, tftp_successful,
  write_request,
}

-- `load_list_operation_v` tells whether the pointer is set.
pub record UploadOperation : Type 0 where
  pub upload_base : HostOperation
  pub load_list_sent_v : Bool
  pub load_list_operation_v : Bool
  pub upload_status_operations_v : List ℕ

abbrev pub UploadOutcome : Type 0
UploadOutcome = UploadOperation × List HostAction

-- A call of the base class.
abbrev pub with_upload_base : UploadOperation → HostOutcome → UploadOutcome
with_upload_base s (base, actions) = (record s { upload_base = base }, actions)

unfoldable pub start_upload : UploadOperation → UploadOutcome
start_upload s =
    with_upload_base (record s { load_list_sent_v = false })
      (initialise upload_initialization s.upload_base)

-- The end of `loadList`: a list that cannot be encoded is an exception to the caller.
unfoldable pub send_load_list : Result (List ℕ) → UploadOperation → UploadOutcome
send_load_list (err e) s = (s, host_throws e ∷ [])
send_load_list (ok file) s = (
  record s { load_list_operation_v = true },
  sends_load_list
        (filename_to_string
          (record { target_id = s.upload_base.target_id_v; file_type = upload_request }))
        file
      ∷ [],
)

unfoldable pub load_list_completed : TransferStatus → UploadOperation → UploadOutcome
load_list_completed successful s =
    (record s { load_list_operation_v = false; load_list_sent_v = true }, [])
load_list_completed _ s =
    with_upload_base (record s { load_list_operation_v = false })
      (do_abort abort_protocol s.upload_base)

-- `statusFileRequest`; `operation` is the new operation of the TFTP server.
unfoldable pub upload_status_request : ℕ → UploadOperation → UploadOutcome
upload_status_request operation s =
    let (aborted_now, outcome) = is_aborted s.upload_base in
    if aborted_now then with_upload_base s outcome else (
      record s { upload_status_operations_v = operation ∷ s.upload_status_operations_v },
      receives_status ∷ [],
    )

-- The switch over the type of a file that the target writes.
unfoldable pub upload_write_request : ProtocolFileType → ℕ → UploadOperation → UploadOutcome
upload_write_request upload_status operation s = upload_status_request operation s
upload_write_request _ operation s = (s, answers_wrong_filename ∷ [])

-- `tftpRequest`.
unfoldable pub upload_tftp_request : RequestType → List ℕ → ℕ → UploadOperation → UploadOutcome
upload_tftp_request request_type filename operation s =
    if not (check_request filename s.upload_base)
    then (s, answers_wrong_target ∷ [])
    else elim request_type [
      | read_request ↦ (s, forwards_file_request filename ∷ [])
      | write_request ↦ upload_write_request (filename_of_string filename).file_type operation s
    ]

-- The switch over the code of a status file.
unfoldable pub handle_upload_status : Status → HostOperation → HostOutcome
handle_upload_status status s = elim status.code [
  | operation_not_accepted ↦ finished status.code (given status.description) s
  | operation_not_supported ↦ finished status.code (given status.description) s
  | operation_completed ↦ finished status.code (given status.description) s
  | operation_aborted_by_target_hw ↦ finished status.code (given status.description) s
  | operation_aborted_by_dlp ↦ finished status.code (given status.description) s
  | operation_aborted_by_operator ↦ finished status.code (given status.description) s
  | operation_accepted ↦ (trigger_dlp_timeout 0 s, [])
  | operation_in_progress ↦ (trigger_dlp_timeout status.exception_timer s, [])
  | operation_in_progress_additional_info ↦ (trigger_dlp_timeout status.exception_timer s, [])
  | _ ↦ finished operation_aborted_by_dlp no_description s
]

-- The try block of `statusFileCompleted`: a file that cannot be read is only logged.
unfoldable pub upload_status_read : Result UploadStatusFile → UploadOperation → UploadOutcome
upload_status_read (err e) s = (s, uncaught e)
upload_status_read (ok file) s =
    let outcome = handle_upload_status file.status.status s.upload_base in
    (record s { upload_base = outcome.0 }, reports_upload_status file.status ∷ outcome.1)

-- What a status file is read into.
abbrev pub empty_upload_status : UploadStatusFile
empty_upload_status = record {
  version = arinc_615a_34;
  status = record {
    status = record {
      counter = 0;
      exception_timer = 0;
      estimated_time = 0;
      code = invalid_status;
      description = [];
    };
    list_ratio = record { value = 0 };
    loads = [];
  };
}

module _ (raw : RawDataOps) where
  unfoldable pub load_list : List UploadLoad → UploadOperation → UploadOutcome
  load_list loads s =
      if s.load_list_sent_v
      then (s, [])
      else send_load_list
          (UploadRequestFile.encode raw
            (record { version = s.upload_base.protocol_version_v; loads = loads }))
          s

  -- `statusFileCompleted`, behind the check that the operation is one of those started.
  unfoldable pub upload_status_received :
      TftpTransferStatus → List ℕ → UploadOperation → UploadOutcome
  upload_status_received tftp_successful raw_file s =
      upload_status_read (UploadStatusFile.decode raw empty_upload_status raw_file) s
  upload_status_received _ raw_file s =
      with_upload_base s (finished operation_aborted_by_dlp status_not_received s.upload_base)

  -- The source goes on where the operation is not one of those started.
  unfoldable pub upload_status_completed :
      ℕ → TftpTransferStatus → List ℕ → UploadOperation → UploadOutcome
  upload_status_completed operation status raw_file s =
      let (removed, rest) = remove operation s.upload_status_operations_v in
      let s' : UploadOperation = record s { upload_status_operations_v = rest } in
      let refusal : UploadOutcome =
        if not (removed == 1)
        then with_upload_base s'
            (finished operation_aborted_by_dlp status_not_initiated s'.upload_base)
        else (s', []) in
      let outcome = upload_status_received status raw_file refusal.0 in
      (outcome.0, refusal.1 ++ outcome.1)
