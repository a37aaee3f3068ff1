-- ===== src/Files/DownloadStatusFile.antt =====
-- lib/arinc_615a/files/download/DownloadOperationStatusFile.cpp (LNS): the state of a download and of
-- each of its files.
pub mod RoundTrip
use arinc_615a_cli_tool_suit.Base.{
  List, Result, [], decode_many, encode_many, file_too_small, is_empty, leb, length,
  more_data_than_expected, ok, require, too_many_items, ℕ, ◌++◌, ◌+◌, ◌>>=◌, ◌>>◌,
}
use arinc_615a_cli_tool_suit.Files.Buffers.{append_int}
use arinc_615a_cli_tool_suit.Files.Header.{decode_header, header_size, insert_header}
use arinc_615a_cli_tool_suit.Files.StateFields.{decode_state, encode_state}
use arinc_615a_cli_tool_suit.Files.Strings.{string_decode, string_encode}
use arinc_615a_cli_tool_suit.Information.{DownloadFileStatus, DownloadStatus}
use arinc_615a_cli_tool_suit.RawData.{RawDataOps, u16}
use arinc_615a_cli_tool_suit.Status.{
  Arinc615aVersion, arinc_615a_34, code_value, invalid_status, status_code,
}

pub record DownloadStatusFile : Type 0 where
  pub version : Arinc615aVersion
  pub status : DownloadStatus

-- What a status file is read into.
abbrev pub empty_download_status : DownloadStatusFile
empty_download_status = record {
  version = arinc_615a_34;
  status = record {
    status = record {
      counter = 0;
      exception_timer = 0;
      estimated_time = 0;
      code = invalid_status;
      description = [];
    };
    list_ratio = record { value = 0 };
    files = [];
  };
}

module _ (raw : RawDataOps) where
  -- The body of the loop of `encode`.
  unfoldable pub encode_file : DownloadFileStatus → Result (List ℕ)
  encode_file file = do
    raw_filename ← string_encode raw file.filename 0
    raw_data ← append_int raw u16 raw_filename (code_value file.code)
    raw_status_description ← string_encode raw file.description 0
    ok (raw_data ++ raw_status_description)

  -- The body of the loop of `decode`: the status code is checked last.
  unfoldable pub decode_file : List ℕ → Result (List ℕ × DownloadFileStatus)
  decode_file remaining = do
    (remaining₁, filename) ← string_decode raw remaining
    (remaining₂, int_file_status_code) ← raw.get_int u16 remaining₁
    (remaining₃, file_status_description) ← string_decode raw remaining₂
    code ← status_code int_file_status_code
    let file : DownloadFileStatus = record {
      filename = filename;
      code = code;
      description = file_status_description;
    }
    ok (remaining₃, file)

  unfoldable pub encode : DownloadStatusFile → Result (List ℕ)
  encode file = do
    raw_data ← encode_state raw file.status.status file.status.list_ratio
    require (leb (length file.status.files) 65535) too_many_items
    number_of_files ← raw.safe_cast u16 (length file.status.files)
    raw_data' ← append_int raw u16 raw_data number_of_files
    raw_data'' ← encode_many encode_file file.status.files raw_data'
    insert_header raw file.version raw_data''

  unfoldable pub decode : DownloadStatusFile → List ℕ → Result DownloadStatusFile
  decode file raw_data = do
    require (leb (header_size + 9) (length raw_data)) file_too_small
    (remaining, version) ← decode_header raw raw_data
    (remaining', fields) ← decode_state raw remaining
    (remaining'', number_of_files) ← raw.get_int u16 remaining'
    (remaining''', files) ← decode_many decode_file number_of_files [] remaining''
    require (is_empty remaining''') more_data_than_expected
    let status : DownloadStatus = record { status = fields.0; list_ratio = fields.1; files = files }
    ok (record file { version = version; status = status })
