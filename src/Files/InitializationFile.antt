-- ===== src/Files/InitializationFile.antt =====
-- lib/arinc_615a/files/InitializationFile.cpp and lib/arinc_615a/information/
-- InitializationResponse.cpp: the answer to the request that starts an operation (LCI, LUI, LND, LNO).
pub mod RoundTrip
use arinc_615a_cli_tool_suit.Base.{
  List, Result, [], description_not_empty, file_too_small, is_empty, leb, length,
  more_data_than_expected, ok, require, true, ℕ, ◌++◌, ◌+◌, ◌>>=◌, ◌>>◌,
}
use arinc_615a_cli_tool_suit.Files.Buffers.{start_with}
use arinc_615a_cli_tool_suit.Files.Header.{decode_header, header_size, insert_header}
use arinc_615a_cli_tool_suit.Files.Strings.{string_decode, string_encode}
use arinc_615a_cli_tool_suit.RawData.{RawDataOps, u16}
use arinc_615a_cli_tool_suit.Status.{
  Arinc615aVersion, OperationAcceptanceStatusCode, acceptance_status, accepted, arinc_615a_34,
  code_value, operation_acceptance_status_code,
}

pub record InitializationResponse : Type 0 where
  pub code : OperationAcceptanceStatusCode
  pub description : List ℕ

pub record InitializationFile : Type 0 where
  pub version : Arinc615aVersion
  pub response : InitializationResponse

-- The default-constructed file.
abbrev pub default : InitializationFile
default = record {
  version = arinc_615a_34;
  response = record { code = accepted; description = [] };
}

abbrev pub min_file_size : ℕ
min_file_size = header_size + 3

module _ (raw : RawDataOps) where
  unfoldable pub encode : InitializationFile → Result (List ℕ)
  encode file = do
    raw_data ← start_with raw (code_value (acceptance_status file.response.code))
    raw_message ← string_encode raw file.response.description 0
    insert_header raw file.version (raw_data ++ raw_message)

  -- `operator=`: the state that a completed decoding leaves.
  unfoldable pub decode : InitializationFile → List ℕ → Result InitializationFile
  decode file raw_data = do
    require (leb min_file_size (length raw_data)) file_too_small
    (remaining, version) ← decode_header raw raw_data
    (remaining', int_status_code) ← raw.get_int u16 remaining
    code ← operation_acceptance_status_code int_status_code
    (remaining'', description) ← string_decode raw remaining'
    require (is_empty remaining'') more_data_than_expected
    ok (record file {
      version = version;
      response = record { code = code; description = description };
    })

-- `InitializationResponse::validate`.
unfoldable pub validate : InitializationResponse → Result (Unit {0})
validate response =
    require (elim response.code [ accepted ↦ is_empty response.description | _ ↦ true ])
      description_not_empty
