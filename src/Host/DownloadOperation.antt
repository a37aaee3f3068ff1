-- ===== src/Host/DownloadOperation.antt =====
-- lib/arinc_615a/host/implementation/DownloadOperationImpl.cpp, and its classes in
-- MediaDefinedDownloadOperationImpl.cpp and OperatorDefinedDownloadOperationImpl.cpp: the host takes
-- files from a target. The options of a request of the target, which go to the handler as they are, are
-- left out.
pub mod Progress
pub mod History
use arinc_615a_cli_tool_suit.Base.{
  Bool, List, Result, [], err, false, if◌then◌else◌, is_caught, not, ok, true, ℕ, ◌++◌, ◌==◌, ◌∷◌,
}
use arinc_615a_cli_tool_suit.Files.DownloadAnswerFile
use arinc_615a_cli_tool_suit.Files.DownloadAnswerFile.{DownloadAnswerFile}
use arinc_615a_cli_tool_suit.Files.DownloadListFile
use arinc_615a_cli_tool_suit.Files.DownloadListFile.{DownloadListFile}
use arinc_615a_cli_tool_suit.Files.DownloadRequestFile
use arinc_615a_cli_tool_suit.Files.DownloadRequestFile.{DownloadRequestFile}
use arinc_615a_cli_tool_suit.Files.DownloadStatusFile
use arinc_615a_cli_tool_suit.Files.DownloadStatusFile.{DownloadStatusFile, empty_download_status}
use arinc_615a_cli_tool_suit.Host.Operation.{
  HostAction, HostOperation, HostOutcome, abort_protocol, aborts_list, answers_no_read,
  answers_wrong_target, check_request, do_abort, finished, forwards_file_request, host_throws,
  initialise, is_aborted, receives_list, receives_status, remove, reports_download_list,
  reports_download_status, sends_download_file, status_not_initiated, status_not_received, uncaught,
}
use arinc_615a_cli_tool_suit.Host.UploadOperation.{handle_upload_status}
use arinc_615a_cli_tool_suit.ProtocolFilename.{
  ProtocolFileType, download_status, filename_of_string, filename_to_string,
  media_defined_download_initialization, media_defined_download_request,
  operator_defined_download_answer, operator_defined_download_initialization,
  operator_defined_download_list,
}
use arinc_615a_cli_tool_suit.RawData.{RawDataOps}
use arinc_615a_cli_tool_suit.Status.{
  DownloadKind, media_defined, operation_aborted_by_dlp, operator_defined,
}
use arinc_615a_cli_tool_suit.Target.Operation.State.{refusal}
use arinc_615a_cli_tool_suit.Tftp.{
  RequestType, TftpTransferStatus, TransferStatus, read_request, successful, tftp_successful,
  write_request,
}

-- `sent_v` is `requestSentV` or `answerSentV`. The `_operation_v` tell whether the pointer is set: that
-- of the request or answer file, and of the list file.
pub record DownloadOperation : Type 0 where
  pub download_base : HostOperation
  pub download_status_operations_v : List ℕ
  pub sent_v : Bool
  pub send_operation_v : Bool
  pub download_list_operation_v : Bool

abbrev pub DownloadOutcome : Type 0
DownloadOutcome = DownloadOperation × List HostAction

-- A call of the base class.
abbrev pub with_host_download_base : DownloadOperation → HostOutcome → DownloadOutcome
with_host_download_base s (base, actions) = (record s { download_base = base }, actions)

abbrev pub initialization_type : DownloadKind → ProtocolFileType
initialization_type media_defined = media_defined_download_initialization
initialization_type operator_defined = operator_defined_download_initialization

unfoldable pub start_download : DownloadKind → DownloadOperation → DownloadOutcome
start_download kind s =
    with_host_download_base (record s { sent_v = false })
      (initialise (initialization_type kind) s.download_base)

-- The end of `request` and of `answer`, with the type of the file: a file that cannot be encoded is an
-- exception to the caller.
unfoldable pub send_download_file :
    ProtocolFileType → Result (List ℕ) → DownloadOperation → DownloadOutcome
send_download_file file_type (err e) s = (s, host_throws e ∷ [])
send_download_file file_type (ok file) s = (
  record s { send_operation_v = true },
  sends_download_file
        (filename_to_string
          (record { target_id = s.download_base.target_id_v; file_type = file_type }))
        file
      ∷ [],
)

-- `requestCompleted` and `answerCompleted`.
unfoldable pub download_file_completed : TransferStatus → DownloadOperation → DownloadOutcome
download_file_completed successful s = (record s { send_operation_v = false; sent_v = true }, [])
download_file_completed _ s =
    with_host_download_base (record s { send_operation_v = false })
      (do_abort abort_protocol s.download_base)

-- `statusFileRequest`; `operation` is the new operation of the TFTP server.
unfoldable pub download_status_request : ℕ → DownloadOperation → DownloadOutcome
download_status_request operation s =
    let (aborted_now, outcome) = is_aborted s.download_base in
    if aborted_now then with_host_download_base s outcome else (
      record s { download_status_operations_v = operation ∷ s.download_status_operations_v },
      receives_status ∷ [],
    )

-- `listFileRequest`: an active reception is aborted first.
unfoldable pub download_list_request : DownloadOperation → DownloadOutcome
download_list_request s = (
  record s { download_list_operation_v = true },
  (if s.download_list_operation_v then aborts_list ∷ [] else []) ++ receives_list ∷ [],
)

-- The switch over the type of a file that the target writes: only the operator defined download knows
-- the list.
unfoldable pub download_write_request :
    DownloadKind → ProtocolFileType → List ℕ → ℕ → DownloadOperation → DownloadOutcome
download_write_request kind download_status filename operation s =
    download_status_request operation s
download_write_request operator_defined operator_defined_download_list filename operation s =
    download_list_request s
download_write_request _ _ filename operation s = (s, forwards_file_request filename ∷ [])

-- `tftpRequest`.
unfoldable pub download_tftp_request :
    DownloadKind → RequestType → List ℕ → ℕ → DownloadOperation → DownloadOutcome
download_tftp_request kind request_type filename operation s =
    if not (check_request filename s.download_base)
    then (s, answers_wrong_target ∷ [])
    else elim request_type [
      | read_request ↦ (s, answers_no_read ∷ [])
      | write_request ↦
          download_write_request kind (filename_of_string filename).file_type filename operation s
    ]

-- The try block of `statusFileCompleted`: a file that cannot be read is only logged. The switch over
-- the code is that of an upload, in the same words.
unfoldable pub host_download_status_read :
    Result DownloadStatusFile → DownloadOperation → DownloadOutcome
host_download_status_read (err e) s = (s, uncaught e)
host_download_status_read (ok file) s =
    let outcome = handle_upload_status file.status.status s.download_base in
    (record s { download_base = outcome.0 }, reports_download_status file.status ∷ outcome.1)

-- The try block of `listFileCompleted`.
unfoldable pub download_list_read : Result DownloadListFile → DownloadOperation → DownloadOutcome
download_list_read (err e) s =
    if is_caught e
    then with_host_download_base s (do_abort abort_protocol s.download_base)
    else (s, host_throws e ∷ [])
download_list_read (ok file) s = (s, reports_download_list file.files ∷ [])

module _ (raw : RawDataOps) where
  unfoldable pub request_download : List (List ℕ) → List ℕ → DownloadOperation → DownloadOutcome
  request_download files user_defined_data s =
      if s.sent_v
      then (s, [])
      else send_download_file media_defined_download_request
          (DownloadRequestFile.encode raw (record {
            version = s.download_base.protocol_version_v;
            files = files;
            user_defined_data = user_defined_data;
          }))
          s

  unfoldable pub answer_download : List (List ℕ) → DownloadOperation → DownloadOutcome
  answer_download files s =
      if s.sent_v
      then (s, [])
      else send_download_file operator_defined_download_answer
          (DownloadAnswerFile.encode raw
            (record { version = s.download_base.protocol_version_v; files = files }))
          s

  unfoldable pub download_list_completed :
      TftpTransferStatus → List ℕ → DownloadOperation → DownloadOutcome
  download_list_completed tftp_successful raw_file s =
      download_list_read (DownloadListFile.decode raw DownloadListFile.default raw_file)
        (record s { download_list_operation_v = false })
  download_list_completed _ raw_file s =
      with_host_download_base (record s { download_list_operation_v = false })
        (do_abort abort_protocol s.download_base)

  -- `statusFileCompleted`, behind the check that the operation is one of those started.
  unfoldable pub host_download_status_received :
      TftpTransferStatus → List ℕ → DownloadOperation → DownloadOutcome
  host_download_status_received tftp_successful raw_file s =
      host_download_status_read (DownloadStatusFile.decode raw empty_download_status raw_file) s
  host_download_status_received _ raw_file s =
      with_host_download_base s
        (finished operation_aborted_by_dlp status_not_received s.download_base)

  -- The source goes on where the operation is not one of those started.
  unfoldable pub host_download_status_completed :
      ℕ → TftpTransferStatus → List ℕ → DownloadOperation → DownloadOutcome
  host_download_status_completed operation status raw_file s =
      let (removed, rest) = remove operation s.download_status_operations_v in
      let s' : DownloadOperation = record s { download_status_operations_v = rest } in
      let refusal : DownloadOutcome =
        if not (removed == 1)
        then with_host_download_base s'
            (finished operation_aborted_by_dlp status_not_initiated s'.download_base)
        else (s', []) in
      let outcome = host_download_status_received status raw_file refusal.0 in
      (outcome.0, refusal.1 ++ outcome.1)
