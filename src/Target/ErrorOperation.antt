-- ===== src/Target/ErrorOperation.antt =====
-- lib/arinc_615a/target/implementation/ErrorOperationImpl.cpp: the answer to a request that is refused.
use arinc_615a_cli_tool_suit.Base.{
  Bool, List, Option, Result, [], err, false, if◌then◌else◌, ok, true, ℕ, ◌∷◌,
}
use arinc_615a_cli_tool_suit.Files.InitializationFile
use arinc_615a_cli_tool_suit.Files.InitializationFile.{InitializationFile}
use arinc_615a_cli_tool_suit.RawData.{RawDataOps}
use arinc_615a_cli_tool_suit.Status.{Arinc615aVersion, OperationAcceptanceStatusCode}
use arinc_615a_cli_tool_suit.Target.Operation.{
  TargetAction, reports_completion, sends_initialisation, throws,
}
use arinc_615a_cli_tool_suit.Tftp.{TftpTransferStatus, tftp_successful}

-- The configuration, and whether the pointer to the operation of the TFTP server is set.
pub record ErrorOperation : Type 0 where
  pub protocol_version_v : Arinc615aVersion
  pub refusal_code : OperationAcceptanceStatusCode
  pub refusal_description : List ℕ
  pub has_completion_handler : Bool
  pub initialisation_file_operation_v : Bool

abbrev pub ErrorOutcome : Type 0
ErrorOutcome = ErrorOperation × List TargetAction

-- A file that cannot be encoded is an exception to the caller.
unfoldable pub error_file_encoded : Result (List ℕ) → Option ℕ → ErrorOperation → ErrorOutcome
error_file_encoded (err e) port s = (s, throws e ∷ [])
error_file_encoded (ok file) port s = (s, sends_initialisation file port ∷ [])

unfoldable pub error_file_completed : TftpTransferStatus → ErrorOperation → ErrorOutcome
error_file_completed tftp_successful s = (
  record s { initialisation_file_operation_v = false },
  if s.has_completion_handler then reports_completion ∷ [] else [],
)
error_file_completed _ s = (record s { initialisation_file_operation_v = false }, [])

module _ (raw : RawDataOps) where
  -- The pointer is set before the file is encoded.
  unfoldable pub start_error : Option ℕ → ErrorOperation → ErrorOutcome
  start_error port s =
      let file : InitializationFile = record {
        version = s.protocol_version_v;
        response = record { code = s.refusal_code; description = s.refusal_description };
      } in
      error_file_encoded (InitializationFile.encode raw file) port
        (record s { initialisation_file_operation_v = true })
