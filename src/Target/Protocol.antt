-- ===== src/Target/Protocol.antt =====
-- lib/arinc_615a/target/implementation/ProtocolImpl.cpp: where a request of the host goes. Other options
-- than the port and the remote endpoint, which are passed on as they are, are left out.
use arinc_615a_cli_tool_suit.Base.{
  Bool, List, Option, [], false, if◌then◌else◌, none, not, true, ℕ, ◌==◌, ◌∷◌,
}
use arinc_615a_cli_tool_suit.ProtocolFilename.{
  ProtocolFileType, ProtocolFilename, filename_of_string, is_protocol_filename,
  load_configuration_initialization, media_defined_download_initialization,
  operator_defined_download_initialization, upload_initialization,
}
use arinc_615a_cli_tool_suit.Status.{
  Arinc615aVersion, OperationType, arinc_615a_34, information_operation, invalid_operation,
  media_defined_download_operation, operator_defined_download_operation, upload_operation,
  version_value,
}
use arinc_615a_cli_tool_suit.TargetId.{TargetId}
use arinc_615a_cli_tool_suit.Tftp.{RequestType, read_request, write_request}

-- The calls to the outside: of the handler of new operations, of the TFTP server, and of the operation
-- that is registered.
pub data ProtocolAction : Type 0 where
  starts_operation : OperationType → Option ℕ → TargetId → ProtocolAction
  answers_no_file answers_no_operation : ProtocolAction
  redirects : RequestType → List ℕ → ProtocolAction

-- `operation_v` tells whether the weak pointer has an operation.
pub record TargetProtocol : Type 0 where
  pub protocol_version_v : Arinc615aVersion
  pub operation_v : Bool

-- `informationOperation`, `uploadOperation` and those of the downloads register what they create.
unfoldable pub register_operation : TargetProtocol → TargetProtocol
register_operation s = record s { operation_v = true }

-- The switch of `receivedTftpRequest`.
abbrev pub is_initialization : ProtocolFileType → Bool
is_initialization load_configuration_initialization = true
is_initialization upload_initialization = true
is_initialization media_defined_download_initialization = true
is_initialization operator_defined_download_initialization = true
is_initialization _ = false

-- The switch of `handleInitialisationFile`; its default is not reached.
abbrev pub operation_type : ProtocolFileType → OperationType
operation_type load_configuration_initialization = information_operation
operation_type upload_initialization = upload_operation
operation_type media_defined_download_initialization = media_defined_download_operation
operation_type operator_defined_download_initialization = operator_defined_download_operation
operation_type _ = invalid_operation

unfoldable pub handle_initialisation_file :
    ProtocolFilename → Option ℕ → TargetProtocol → List ProtocolAction
handle_initialisation_file filename port s =
    starts_operation (operation_type filename.file_type)
      (if version_value s.protocol_version_v == version_value arinc_615a_34 then port else none)
      filename.target_id
    ∷ []

-- The end of `receivedTftpRequest`.
unfoldable pub redirect_request : RequestType → List ℕ → TargetProtocol → List ProtocolAction
redirect_request request_type filename s =
    if not s.operation_v then answers_no_operation ∷ [] else redirects request_type filename ∷ []

unfoldable pub received_tftp_request :
    RequestType → List ℕ → Option ℕ → TargetProtocol → List ProtocolAction
received_tftp_request request_type filename port s =
    if not (is_protocol_filename filename) then answers_no_file ∷ [] else elim request_type [
      | read_request ↦
          let protocol_filename = filename_of_string filename in
          if is_initialization protocol_filename.file_type
          then handle_initialisation_file protocol_filename port s
          else redirect_request read_request filename s
      | write_request ↦ redirect_request write_request filename s
    ]
