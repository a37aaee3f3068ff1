-- ===== src/Files/InformationStatusFile.antt =====
-- lib/arinc_615a/files/information/InformationOperationStatusFile.cpp (LCS).
pub mod RoundTrip
use arinc_615a_cli_tool_suit.Base.{
  List, Result, drop, file_too_small, is_empty, leb, length, more_data_than_expected, ok, replicate,
  require, take, ℕ, ◌++◌, ◌+◌, ◌>>=◌, ◌>>◌,
}
use arinc_615a_cli_tool_suit.Files.Header.{decode_header, header_size, insert_header}
use arinc_615a_cli_tool_suit.Files.Strings.{string_decode, string_encode}
use arinc_615a_cli_tool_suit.Information.{Status}
use arinc_615a_cli_tool_suit.RawData.{RawDataOps, u16}
use arinc_615a_cli_tool_suit.Status.{Arinc615aVersion, code_value, status_code}

pub record InformationStatusFile : Type 0 where
  pub version : Arinc615aVersion
  pub status : Status

module _ (raw : RawDataOps) where
  unfoldable pub encode : InformationStatusFile → Result (List ℕ)
  encode file =
      let raw_data : List ℕ = replicate (header_size + 8) 0 in
      do
        (counter, next_data) ← raw.set_int u16 (drop header_size raw_data) file.status.counter
        (code, next_data') ← raw.set_int u16 next_data (code_value file.status.code)
        (timer, next_data'') ← raw.set_int u16 next_data' file.status.exception_timer
        (time, next_data''') ← raw.set_int u16 next_data'' file.status.estimated_time
        raw_description ← string_encode raw file.status.description 0
        insert_header raw file.version (
            take header_size raw_data
            ++ ((counter ++ (code ++ (timer ++ (time ++ next_data''')))) ++ raw_description))

  unfoldable pub decode : InformationStatusFile → List ℕ → Result InformationStatusFile
  decode file raw_data = do
    require (leb (header_size + 9) (length raw_data)) file_too_small
    (remaining, version) ← decode_header raw raw_data
    (remaining₁, counter) ← raw.get_int u16 remaining
    (remaining₂, int_status_code) ← raw.get_int u16 remaining₁
    code ← status_code int_status_code
    (remaining₃, exception_timer) ← raw.get_int u16 remaining₂
    (remaining₄, estimated_time) ← raw.get_int u16 remaining₃
    (remaining₅, description) ← string_decode raw remaining₄
    require (is_empty remaining₅) more_data_than_expected
    ok (record file {
      version = version;
      status = record {
        counter = counter;
        exception_timer = exception_timer;
        estimated_time = estimated_time;
        code = code;
        description = description;
      };
    })
