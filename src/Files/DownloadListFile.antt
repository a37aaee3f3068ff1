-- ===== src/Files/DownloadListFile.antt =====
-- lib/arinc_615a/files/download/DownloadOperationListFile.cpp (LNL): the files that the target
-- offers.
pub mod RoundTrip
use arinc_615a_cli_tool_suit.Base.{
  List, Result, [], decode_many, encode_many, file_too_small, is_empty, leb, length,
  more_data_than_expected, ok, require, too_many_items, ℕ, ◌++◌, ◌+◌, ◌>>=◌, ◌>>◌,
}
use arinc_615a_cli_tool_suit.Files.Buffers.{start_with}
use arinc_615a_cli_tool_suit.Files.Header.{decode_header, header_size, insert_header}
use arinc_615a_cli_tool_suit.Files.Strings.{string_decode, string_encode}
use arinc_615a_cli_tool_suit.Information.{DownloadFileInformation}
use arinc_615a_cli_tool_suit.RawData.{RawDataOps, u16}
use arinc_615a_cli_tool_suit.Status.{Arinc615aVersion, arinc_615a_34}

pub record DownloadListFile : Type 0 where
  pub version : Arinc615aVersion
  pub files : List DownloadFileInformation

-- The default-constructed file.
abbrev pub default : DownloadListFile
default = record { version = arinc_615a_34; files = [] }

abbrev pub minimum_size : ℕ
minimum_size = header_size + 2

module _ (raw : RawDataOps) where
  -- The body of the loop of `encode`.
  unfoldable pub encode_file : DownloadFileInformation → Result (List ℕ)
  encode_file info = do
    filename ← string_encode raw info.filename 0
    description ← string_encode raw info.description 0
    ok (filename ++ description)

  -- The body of the loop of `decode`.
  unfoldable pub decode_file : List ℕ → Result (List ℕ × DownloadFileInformation)
  decode_file remaining = do
    (remaining', filename) ← string_decode raw remaining
    (remaining'', description) ← string_decode raw remaining'
    ok (remaining'', record { filename = filename; description = description })

  unfoldable pub encode : DownloadListFile → Result (List ℕ)
  encode file = do
    require (leb (length file.files) 65535) too_many_items
    number_of_files ← raw.safe_cast u16 (length file.files)
    raw_data ← start_with raw number_of_files
    raw_data' ← encode_many encode_file file.files raw_data
    insert_header raw file.version raw_data'

  -- The files are added to those that the object holds already.
  unfoldable pub decode : DownloadListFile → List ℕ → Result DownloadListFile
  decode file raw_data = do
    require (leb minimum_size (length raw_data)) file_too_small
    (remaining, version) ← decode_header raw raw_data
    (remaining', number_of_files) ← raw.get_int u16 remaining
    (remaining'', files) ← decode_many decode_file number_of_files file.files remaining'
    require (is_empty remaining'') more_data_than_expected
    ok (record { version = version; files = files })
