-- ===== src/Files/UploadStatusFile.antt =====
-- lib/arinc_615a/files/upload/UploadOperationStatusFile.cpp (LUS): the state of an upload and of each
-- of its loads.
pub mod RoundTrip
use arinc_615a_cli_tool_suit.Base.{
  List, Result, [], decode_many, encode_many, file_too_small, is_empty, leb, length,
  more_data_than_expected, ok, require, too_many_items, ℕ, ◌++◌, ◌+◌, ◌>>=◌, ◌>>◌,
}
use arinc_615a_cli_tool_suit.Files.Buffers.{append_int}
use arinc_615a_cli_tool_suit.Files.Header.{decode_header, header_size, insert_header}
use arinc_615a_cli_tool_suit.Files.Ratio.{ratio_decode, ratio_encode}
use arinc_615a_cli_tool_suit.Files.StateFields.{decode_state, encode_state}
use arinc_615a_cli_tool_suit.Files.Strings.{string_decode, string_encode}
use arinc_615a_cli_tool_suit.Information.{UploadLoadStatus, UploadStatus}
use arinc_615a_cli_tool_suit.RawData.{RawDataOps, u16}
use arinc_615a_cli_tool_suit.Status.{Arinc615aVersion, code_value, status_code}

pub record UploadStatusFile : Type 0 where
  pub version : Arinc615aVersion
  pub status : UploadStatus

module _ (raw : RawDataOps) where
  -- The body of the loop of `encode`.
  unfoldable pub encode_load : UploadLoadStatus → Result (List ℕ)
  encode_load header_file = do
    raw_header_filename ← string_encode raw header_file.header_filename 0
    raw_load_part_number ← string_encode raw header_file.part_number 0
    load_ratio ← ratio_encode raw header_file.ratio
    raw_data ←
        append_int raw u16 (raw_header_filename ++ (raw_load_part_number ++ load_ratio))
          (code_value header_file.code)
    raw_load_description ← string_encode raw header_file.description 0
    ok (raw_data ++ raw_load_description)

  -- The body of the loop of `decode`: the status code is checked last. Its handler for
  -- `std::invalid_argument` has nothing to catch, since `Ratio_decode` throws no such exception.
  unfoldable pub decode_load : List ℕ → Result (List ℕ × UploadLoadStatus)
  decode_load remaining = do
    (remaining₁, header_filename) ← string_decode raw remaining
    (remaining₂, load_part_number) ← string_decode raw remaining₁
    (remaining₃, load_ratio) ← ratio_decode raw remaining₂
    (remaining₄, int_load_status_code) ← raw.get_int u16 remaining₃
    (remaining₅, load_status_description) ← string_decode raw remaining₄
    code ← status_code int_load_status_code
    let load : UploadLoadStatus = record {
      header_filename = header_filename;
      part_number = load_part_number;
      ratio = load_ratio;
      code = code;
      description = load_status_description;
    }
    ok (remaining₅, load)

  unfoldable pub encode : UploadStatusFile → Result (List ℕ)
  encode file = do
    raw_data ← encode_state raw file.status.status file.status.list_ratio
    require (leb (length file.status.loads) 65535) too_many_items
    number_of_loads ← raw.safe_cast u16 (length file.status.loads)
    raw_data' ← append_int raw u16 raw_data number_of_loads
    raw_data'' ← encode_many encode_load file.status.loads raw_data'
    insert_header raw file.version raw_data''

  unfoldable pub decode : UploadStatusFile → List ℕ → Result UploadStatusFile
  decode file raw_data = do
    require (leb (header_size + 9) (length raw_data)) file_too_small
    (remaining, version) ← decode_header raw raw_data
    (remaining', fields) ← decode_state raw remaining
    (remaining'', number_of_header_files) ← raw.get_int u16 remaining'
    (remaining''', loads) ← decode_many decode_load number_of_header_files [] remaining''
    require (is_empty remaining''') more_data_than_expected
    let status : UploadStatus = record { status = fields.0; list_ratio = fields.1; loads = loads }
    ok (record file { version = version; status = status })
