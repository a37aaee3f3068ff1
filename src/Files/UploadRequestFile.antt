-- ===== src/Files/UploadRequestFile.antt =====
-- lib/arinc_615a/files/upload/UploadOperationRequestFile.cpp (LUR): the loads that the target is
-- asked to take.
pub mod RoundTrip
use arinc_615a_cli_tool_suit.Base.{
  List, Result, [], decode_many, encode_many, file_too_small, is_empty, leb, length,
  more_data_than_expected, ok, require, too_many_items, ℕ, ◌++◌, ◌+◌, ◌>>=◌, ◌>>◌,
}
use arinc_615a_cli_tool_suit.Files.Buffers.{start_with}
use arinc_615a_cli_tool_suit.Files.Header.{decode_header, header_size, insert_header}
use arinc_615a_cli_tool_suit.Files.Strings.{string_decode, string_encode}
use arinc_615a_cli_tool_suit.Information.{UploadLoad}
use arinc_615a_cli_tool_suit.RawData.{RawDataOps, u16}
use arinc_615a_cli_tool_suit.Status.{Arinc615aVersion, arinc_615a_34}

pub record UploadRequestFile : Type 0 where
  pub version : Arinc615aVersion
  pub loads : List UploadLoad

-- The default-constructed file.
abbrev pub default : UploadRequestFile
default = record { version = arinc_615a_34; loads = [] }

abbrev pub minimum_size : ℕ
minimum_size = header_size + 2

module _ (raw : RawDataOps) where
  -- The body of the loop of `encode`.
  unfoldable pub encode_load : UploadLoad → Result (List ℕ)
  encode_load load = do
    header_filename ← string_encode raw load.header_filename 0
    load_part_number_name ← string_encode raw load.part_number 0
    ok (header_filename ++ load_part_number_name)

  -- The body of the loop of `decode`.
  unfoldable pub decode_load : List ℕ → Result (List ℕ × UploadLoad)
  decode_load remaining = do
    (remaining', header_filename) ← string_decode raw remaining
    (remaining'', load_part_number) ← string_decode raw remaining'
    ok (remaining'', record { header_filename = header_filename; part_number = load_part_number })

  unfoldable pub encode : UploadRequestFile → Result (List ℕ)
  encode file = do
    require (leb (length file.loads) 65535) too_many_items
    number_of_loads ← raw.safe_cast u16 (length file.loads)
    raw_data ← start_with raw number_of_loads
    raw_data' ← encode_many encode_load file.loads raw_data
    insert_header raw file.version raw_data'

  -- The loads are added to those that the object holds already.
  unfoldable pub decode : UploadRequestFile → List ℕ → Result UploadRequestFile
  decode file raw_data = do
    require (leb minimum_size (length raw_data)) file_too_small
    (remaining, version) ← decode_header raw raw_data
    (remaining', number_of_header_files) ← raw.get_int u16 remaining
    (remaining'', loads) ← decode_many decode_load number_of_header_files file.loads remaining'
    require (is_empty remaining'') more_data_than_expected
    ok (record { version = version; loads = loads })
