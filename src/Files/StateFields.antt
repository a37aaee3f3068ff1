-- ===== src/Files/StateFields.antt =====
-- The fields with which an upload and a download status file begin: UploadOperationStatusFile.cpp
-- and DownloadOperationStatusFile.cpp of lib/arinc_615a/files write and read them in the same way.
pub mod RoundTrip
use arinc_615a_cli_tool_suit.Base.{List, Result, ok, ℕ, ◌++◌, ◌>>=◌}
use arinc_615a_cli_tool_suit.Files.Buffers.{append_three, start_with}
use arinc_615a_cli_tool_suit.Files.Ratio.{Ratio, ratio_decode, ratio_encode}
use arinc_615a_cli_tool_suit.Files.Strings.{string_decode, string_encode}
use arinc_615a_cli_tool_suit.Information.{Status}
use arinc_615a_cli_tool_suit.RawData.{RawDataOps, u16}
use arinc_615a_cli_tool_suit.Status.{code_value, status_code}

module _ (raw : RawDataOps) where
  -- Room for the header, the status code, the description, three counters, and the list ratio.
  unfoldable pub encode_state : Status → Ratio → Result (List ℕ)
  encode_state status list_ratio = do
    raw_data ← start_with raw (code_value status.code)
    raw_description ← string_encode raw status.description 0
    raw_data' ←
        append_three raw (raw_data ++ raw_description) status.counter status.exception_timer
          status.estimated_time
    raw_ratio ← ratio_encode raw list_ratio
    ok (raw_data' ++ raw_ratio)

  unfoldable pub decode_state : List ℕ → Result (List ℕ × (Status × Ratio))
  decode_state remaining = do
    (remaining₁, int_status_code) ← raw.get_int u16 remaining
    code ← status_code int_status_code
    (remaining₂, description) ← string_decode raw remaining₁
    (remaining₃, counter) ← raw.get_int u16 remaining₂
    (remaining₄, exception_timer) ← raw.get_int u16 remaining₃
    (remaining₅, estimated_time) ← raw.get_int u16 remaining₄
    (remaining₆, list_ratio) ← ratio_decode raw remaining₅
    let status : Status = record {
      counter = counter;
      exception_timer = exception_timer;
      estimated_time = estimated_time;
      code = code;
      description = description;
    }
    ok (remaining₆, (status, list_ratio))
