-- ===== src/Host/Operation.antt =====
-- lib/arinc_615a/host/implementation/OperationImpl.cpp: what all operations of the host share. A call
-- of the handler, of the TFTP client or of the TFTP server is a `HostAction`.
pub mod Negotiation
pub mod Progress
use arinc_615a_cli_tool_suit.Base.{
  Bool, Error, List, Option, Result, [], err, false, if◌then◌else◌, is_caught, ltb, none, not, ok,
  some, str_eq, suc, true, ℕ, ◌&&◌, ◌++◌, ◌==◌, ◌∷◌,
}
use arinc_615a_cli_tool_suit.Files.InitializationFile
use arinc_615a_cli_tool_suit.Files.InitializationFile.{InitializationFile, InitializationResponse}
use arinc_615a_cli_tool_suit.Information.{
  DownloadFileInformation, DownloadStatus, Status, TargetHardware, UploadStatus,
}
use arinc_615a_cli_tool_suit.ProtocolFilename.{
  ProtocolFileType, filename_of_string, filename_to_string, is_protocol_filename,
}
use arinc_615a_cli_tool_suit.RawData.{RawDataOps}
use arinc_615a_cli_tool_suit.Status.{
  Arinc615aVersion, StatusCode, acceptance_status, accepted, deferred, denied, not_supported,
  operation_aborted_by_dlp, operation_aborted_by_operator,
}
use arinc_615a_cli_tool_suit.TargetId.{TargetId}
use arinc_615a_cli_tool_suit.Tftp.{TransferStatus, successful}
use arinc_615a_cli_tool_suit.Tftp.ClientOperation.{
  TimerResult, expired, operation_aborted, timer_error,
}

pub data AbortReason : Type 0 where
  no_abort abort_operator abort_protocol : AbortReason

-- The texts that the sources pass on when an operation is finished, by the literal, and the text of a
-- protocol file.
pub data Description : Type 0 where
  no_description terminate_request internal_timer_error dlp_timeout_reached : Description
  initialisation_not_received unknown_status_code : Description
  status_not_initiated status_not_received invalid_protocol_file : Description
  given : List ℕ → Description

-- The calls to the outside. A remote endpoint is left out: it is that of the request.
pub data HostAction : Type 0 where
  starts_server stops_server aborts_initialisation : HostAction
  requests_initialisation : List ℕ → HostAction
  finishes : StatusCode → Description → HostAction
  answers_abort : StatusCode → HostAction
  answers_wrong_target answers_only_write answers_wrong_filename answers_no_read : HostAction
  reports_deferral : ℕ → HostAction
  reports_response : InitializationResponse → HostAction
  reports_status : Status → HostAction
  reports_hardware : List TargetHardware → Bool → HostAction
  receives_status receives_list aborts_list : HostAction
  reports_upload_status : UploadStatus → HostAction
  reports_download_status : DownloadStatus → HostAction
  reports_download_list : List DownloadFileInformation → HostAction
  -- The TFTP client writes a file: its name and its content.
  sends_load_list sends_download_file : List ℕ → List ℕ → HostAction
  forwards_file_request : List ℕ → HostAction
  -- An exception that leaves the function.
  host_throws : Error → HostAction

-- `timer_v` is the time for which the timer is armed, and `initialisation_operation_v` tells whether
-- the pointer is set.
pub record HostOperation : Type 0 where
  pub target_id_v : TargetId
  pub dlp_timeout_v : ℕ
  pub port_option_v : Bool
  pub protocol_version_v : Arinc615aVersion
  pub abort_reason_v : AbortReason
  pub timer_v : Option ℕ
  pub initialisation_operation_v : Bool

abbrev pub HostOutcome : Type 0
HostOutcome = HostOperation × List HostAction

-- What leaves the handler of a file that cannot be read, where the `catch` only logs.
abbrev pub uncaught : Error → List HostAction
uncaught e = if is_caught e then [] else host_throws e ∷ []

abbrev pub max_of : ℕ → ℕ → ℕ
max_of a b = if ltb a b then b else a

-- `triggerDlpTimeout`, with no exception time where the source passes none.
unfoldable pub trigger_dlp_timeout : ℕ → HostOperation → HostOperation
trigger_dlp_timeout exception_time s = record s {
  timer_v = some (max_of exception_time s.dlp_timeout_v);
}

unfoldable pub finished : StatusCode → Description → HostOperation → HostOutcome
finished status description s =
    (record s { timer_v = none }, finishes status description ∷ stops_server ∷ [])

abbrev pub is_no_abort : AbortReason → Bool
is_no_abort no_abort = true
is_no_abort _ = false

unfoldable pub do_abort : AbortReason → HostOperation → HostOutcome
do_abort reason s = if not (is_no_abort s.abort_reason_v) then (s, []) else (
  record s { abort_reason_v = reason },
  if s.initialisation_operation_v then aborts_initialisation ∷ [] else [],
)

-- The switch over the reason, in `doTerminate` and in `isAborted`.
unfoldable pub status_of_reason : AbortReason → StatusCode
status_of_reason abort_operator = operation_aborted_by_operator
status_of_reason abort_protocol = operation_aborted_by_dlp
status_of_reason _ = operation_aborted_by_dlp

unfoldable pub do_terminate : AbortReason → HostOperation → HostOutcome
do_terminate reason s =
    let outcome = finished (status_of_reason reason) terminate_request s in
    (
      outcome.0,
      (if s.initialisation_operation_v then aborts_initialisation ∷ [] else []) ++ outcome.1,
    )

-- `isAborted`: true where an abort was pending, which is answered and forgotten.
unfoldable pub is_aborted : HostOperation → Bool × HostOutcome
is_aborted s = if is_no_abort s.abort_reason_v then (false, (s, [])) else (
  true,
  (
    trigger_dlp_timeout 0 (record s { abort_reason_v = no_abort }),
    answers_abort (status_of_reason s.abort_reason_v) ∷ [],
  ),
)

-- `std::forward_list::remove`: how many there were, and what is left.
unfoldable pub remove : ℕ → List ℕ → ℕ × List ℕ
remove operation [] = (0, [])
remove operation (o ∷ operations) =
    let (removed, rest) = remove operation operations in
    if o == operation then (suc removed, rest) else (removed, o ∷ rest)

abbrev pub same_target : TargetId → TargetId → Bool
same_target a b = str_eq a.thw_id b.thw_id && str_eq a.position b.position

unfoldable pub check_request : List ℕ → HostOperation → Bool
check_request filename s =
    if is_protocol_filename filename
    then same_target (filename_of_string filename).target_id s.target_id_v
    else true

unfoldable pub initialise : ProtocolFileType → HostOperation → HostOutcome
initialise file_type s = (
  record s { initialisation_operation_v = true },
  starts_server
      ∷ requests_initialisation
          (filename_to_string (record { target_id = s.target_id_v; file_type = file_type }))
      ∷ [],
)

unfoldable pub timer_handler : TimerResult → HostOperation → HostOutcome
timer_handler operation_aborted s = (s, [])
timer_handler timer_error s = finished operation_aborted_by_dlp internal_timer_error s
timer_handler expired s = finished operation_aborted_by_dlp dlp_timeout_reached s

unfoldable pub initialisation_file_deferred : ℕ → HostOperation → HostOutcome
initialisation_file_deferred wait_time s = (s, reports_deferral wait_time ∷ [])

-- `initialisationFileOptionsNegotiation`: whether a checksum was received, the port that was, and the
-- port of the TFTP server.
unfoldable pub accept_port : Option ℕ → ℕ → HostOperation → Bool
accept_port (some port) server_port s =
    if not s.port_option_v then false else if not (port == server_port) then false else true
accept_port none server_port s = if s.port_option_v then false else true

unfoldable pub negotiate_options : Bool → Option ℕ → ℕ → HostOperation → Bool
negotiate_options has_checksum port server_port s =
    if has_checksum then false else accept_port port server_port s

-- The switch of `initialisationFileCompleted`, and its try block.
unfoldable pub handle_response :
    Arinc615aVersion → InitializationResponse → HostOperation → HostOutcome
handle_response version response s = elim response.code [
  | accepted ↦ (trigger_dlp_timeout 0 (record s { protocol_version_v = version }), [])
  | denied ↦ finished (acceptance_status response.code) (given response.description) s
  | not_supported ↦ finished (acceptance_status response.code) (given response.description) s
  | deferred ↦ finished operation_aborted_by_dlp unknown_status_code s
]

-- The try block of `initialisationFileCompleted`: an initialization file that cannot be read gives an
-- exception that is caught (Files/Failures).
unfoldable pub response_read : Result InitializationFile → HostOperation → HostOutcome
response_read (err e) s = finished operation_aborted_by_dlp initialisation_not_received s
response_read (ok file) s =
    let outcome = handle_response file.version file.response s in
    (outcome.0, reports_response file.response ∷ outcome.1)

module _ (raw : RawDataOps) where
  unfoldable pub initialisation_file_completed :
      TransferStatus → List ℕ → HostOperation → HostOutcome
  initialisation_file_completed successful raw_file s =
      response_read (InitializationFile.decode raw InitializationFile.default raw_file)
        (record s { initialisation_operation_v = false })
  initialisation_file_completed _ raw_file s =
      finished operation_aborted_by_dlp initialisation_not_received
        (record s { initialisation_operation_v = false })
