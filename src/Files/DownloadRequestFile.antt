-- ===== src/Files/DownloadRequestFile.antt =====
-- lib/arinc_615a/files/download/DownloadOperationRequestFile.cpp (LNR): the files that the host asks
-- for, and user-defined data.
pub mod RoundTrip
use arinc_615a_cli_tool_suit.Base.{
  List, Result, [], decode_many, encode_many, file_too_small, leb, length, ok, require,
  too_many_items, user_data_length, user_data_too_big, ℕ, ◌++◌, ◌+◌, ◌==◌, ◌>>=◌, ◌>>◌,
}
use arinc_615a_cli_tool_suit.Files.Buffers.{append_int, start_with}
use arinc_615a_cli_tool_suit.Files.Header.{decode_header, header_size, insert_header}
use arinc_615a_cli_tool_suit.Files.Strings.{string_decode, string_encode}
use arinc_615a_cli_tool_suit.RawData.{RawDataOps, u16, u8}
use arinc_615a_cli_tool_suit.Status.{Arinc615aVersion, arinc_615a_34}

pub record DownloadRequestFile : Type 0 where
  pub version : Arinc615aVersion
  pub files : List (List ℕ)
  pub user_defined_data : List ℕ

-- The default-constructed file.
abbrev pub default : DownloadRequestFile
default = record { version = arinc_615a_34; files = []; user_defined_data = [] }

abbrev pub minimum_size : ℕ
minimum_size = header_size + 3

module _ (raw : RawDataOps) where
  unfoldable pub encode : DownloadRequestFile → Result (List ℕ)
  encode file = do
    require (leb (length file.files) 65535) too_many_items
    number_of_files ← raw.safe_cast u16 (length file.files)
    raw_data ← start_with raw number_of_files
    raw_data' ← encode_many (λ filename. string_encode raw filename 0) file.files raw_data
    require (leb (length file.user_defined_data) 255) user_data_too_big
    user_defined_data_length ← raw.safe_cast u8 (length file.user_defined_data)
    raw_data'' ← append_int raw u8 raw_data' user_defined_data_length
    insert_header raw file.version (raw_data'' ++ file.user_defined_data)

  -- The files are added to those that the object holds already; the user-defined data is replaced.
  unfoldable pub decode : DownloadRequestFile → List ℕ → Result DownloadRequestFile
  decode file raw_data = do
    require (leb minimum_size (length raw_data)) file_too_small
    (remaining, version) ← decode_header raw raw_data
    (remaining', number_of_files) ← raw.get_int u16 remaining
    (remaining'', files) ← decode_many (string_decode raw) number_of_files file.files remaining'
    (remaining''', user_defined_data_length) ← raw.get_int u8 remaining''
    require (length remaining''' == user_defined_data_length) user_data_length
    ok (record { version = version; files = files; user_defined_data = remaining''' })
