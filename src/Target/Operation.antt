-- ===== src/Target/Operation.antt =====
-- lib/arinc_615a/target/implementation/OperationImpl.cpp: what all operations of the target share. A
-- call of the handler, of the TFTP client or of the TFTP server is a `TargetAction`.
pub mod State
pub mod Pending
pub mod Progress
pub mod BaseSteps
use arinc_615a_cli_tool_suit.Base.{
  Bool, Error, List, Option, Result, [], err, false, if◌then◌else◌, is_empty, none, not, ok, some,
  text_codes, true, ℕ, ◌∷◌,
}
use arinc_615a_cli_tool_suit.Files.InitializationFile
use arinc_615a_cli_tool_suit.Files.InitializationFile.{InitializationFile}
use arinc_615a_cli_tool_suit.Information.{Status, UploadLoad}
use arinc_615a_cli_tool_suit.ProtocolFilename.{
  ProtocolFileType, download_status, filename_to_string, load_configuration_status, upload_status,
}
use arinc_615a_cli_tool_suit.RawData.{RawDataOps}
use arinc_615a_cli_tool_suit.Status.{
  AbortRequest, Arinc615aVersion, FinalStatus, accepted, final_aborted_by_target_hardware,
}
use arinc_615a_cli_tool_suit.TargetId.{TargetId}
use arinc_615a_cli_tool_suit.Tftp.{TftpTransferStatus, tftp_successful}

-- The calls to the outside. A remote endpoint is left out: it is that of the request.
pub data TargetAction : Type 0 where
  -- The TFTP server sends the initialization file, with the port option that is answered.
  sends_initialisation : List ℕ → Option ℕ → TargetAction
  reports_initialised : TargetAction
  -- The TFTP client writes a protocol file; the flag is `handleAbort`.
  sends_protocol_file : ProtocolFileType → Bool → List ℕ → List ℕ → TargetAction
  reports_end : FinalStatus → List ℕ → TargetAction
  requests_abort : AbortRequest → TargetAction
  reports_sent : Status → TargetAction
  -- The TFTP client reads a file with the part number.
  reads_file : List ℕ → List ℕ → TargetAction
  -- The TFTP client writes a file with the part number.
  writes_file : List ℕ → List ℕ → TargetAction
  receives_request_file : TargetAction
  reports_loads : List UploadLoad → TargetAction
  reports_request : List (List ℕ) → List ℕ → TargetAction
  reports_answer : List (List ℕ) → TargetAction
  reports_completion : TargetAction
  refuses_address refuses_read refuses_filename refuses_request : TargetAction
  -- An exception that leaves the function.
  throws : Error → TargetAction

-- `status_transmission_timer_v` is the time for which the timer is armed, and
-- `initialisation_operation_v` tells whether the pointer is set. An address is a number.
pub record TargetOperation : Type 0 where
  pub protocol_version_v : Arinc615aVersion
  pub target_id_v : TargetId
  pub status_transmission_rate_v : ℕ
  pub host_address_v : ℕ
  pub host_port_v : ℕ
  pub status_transmission_timer_v : Option ℕ
  pub initialisation_operation_v : Bool

abbrev pub TargetOutcome : Type 0
TargetOutcome = TargetOperation × List TargetAction

unfoldable pub trigger_status_transmission : TargetOperation → TargetOperation
trigger_status_transmission s = record s { status_transmission_timer_v = some 0 }

unfoldable pub trigger_status_transmission_timer : TargetOperation → TargetOperation
trigger_status_transmission_timer s = record s {
  status_transmission_timer_v = some s.status_transmission_rate_v;
}

unfoldable pub finalise : FinalStatus → List ℕ → TargetOperation → TargetOutcome
finalise status description s =
    (record s { status_transmission_timer_v = none }, reports_end status description ∷ [])

-- The try block of `sendInitFile`: a file that cannot be encoded is only logged.
unfoldable pub init_file_sent : Result (List ℕ) → Option ℕ → TargetOperation → TargetOutcome
init_file_sent (err e) port s = (s, [])
init_file_sent (ok file) port s =
    (record s { initialisation_operation_v = true }, sends_initialisation file port ∷ [])

unfoldable pub send_init_file_complete : TftpTransferStatus → TargetOperation → TargetOutcome
send_init_file_complete tftp_successful s = (
  trigger_status_transmission_timer (record s { initialisation_operation_v = false }),
  reports_initialised ∷ [],
)
send_init_file_complete _ s =
    finalise final_aborted_by_target_hardware (text_codes "Initialisation file transmission failed")
      (record s { initialisation_operation_v = false })

-- The switch over the type in `protocolFileOperation`.
abbrev pub handle_abort_of : ProtocolFileType → Bool
handle_abort_of load_configuration_status = true
handle_abort_of upload_status = true
handle_abort_of download_status = true
handle_abort_of _ = false

-- `protocolFileOperation` and the `request()` of the operation that it gives.
unfoldable pub protocol_file_operation : ProtocolFileType → List ℕ → TargetOperation → TargetAction
protocol_file_operation file_type file s =
    sends_protocol_file file_type (handle_abort_of file_type)
      (filename_to_string (record { target_id = s.target_id_v; file_type = file_type })) file

-- `protocolFileOptionsNegotiation`; the check values are those of the ARINC 649 library.
module _ {CheckValue : Type 0} (equal : CheckValue → CheckValue → Bool)
    (no_check_value : CheckValue) where
  unfoldable pub negotiate_protocol_file : CheckValue → Option ℕ → List ℕ → CheckValue → Bool
  negotiate_protocol_file provided (some port) part_number checksum = false
  negotiate_protocol_file provided none part_number checksum =
      if not (is_empty part_number)
      then false
      else if equal no_check_value provided
      then if not (equal no_check_value checksum) then false else true
      else if not (equal provided checksum)
      then false
      else true

module _ (raw : RawDataOps) where
  unfoldable pub send_init_file : Option ℕ → TargetOperation → TargetOutcome
  send_init_file port s =
      let file : InitializationFile = record {
        version = s.protocol_version_v;
        response = record { code = accepted; description = [] };
      } in
      init_file_sent (InitializationFile.encode raw file) port s

  unfoldable pub do_start : ℕ → Option ℕ → TargetOperation → TargetOutcome
  do_start host_address (some port) s =
      send_init_file (some port) (record s { host_address_v = host_address; host_port_v = port })
  do_start host_address none s = send_init_file none (record s { host_address_v = host_address })
