-- ===== src/Files/DownloadListFile/RoundTrip.antt =====
-- Encoding and decoding of the download list file.
use arinc_615a_cli_tool_suit.Base.{
  All, Codes, List, append_assoc, arith, length, length-append, le→leb, ok, replicate, ℕ, ◌++◌, ◌≡◌,
  ◌≤◌,
}
use arinc_615a_cli_tool_suit.Files.Buffers.{start_with_lem}
use arinc_615a_cli_tool_suit.Files.DownloadListFile.{
  DownloadListFile, decode, decode_file, encode, encode_file, minimum_size,
}
use arinc_615a_cli_tool_suit.Files.Header.{header_size}
use arinc_615a_cli_tool_suit.Files.Header.Laws.{
  IsSupported, decode_header_lem, frame, insert_header_lem, length-frame,
}
use arinc_615a_cli_tool_suit.Files.Items.{ItemCodec, encode_items_lem, items_wire}
use arinc_615a_cli_tool_suit.Files.Items.Counted.{counted_bounds, counted_wire, decode_items_end}
use arinc_615a_cli_tool_suit.Files.Strings.Laws.{IsPlain, string_Codes, string_bounds}
use arinc_615a_cli_tool_suit.Information.{DownloadFileInformation}
use arinc_615a_cli_tool_suit.RawData.{RawDataLaws, RawDataOps, u16}

pub record IsFileInformation (info : DownloadFileInformation) : Type 0 where
  pub filename : IsPlain info.filename
  pub description : IsPlain info.description

pub record IsDownloadList (file : DownloadListFile) : Type 0 where
  pub version : IsSupported file.version
  pub count : length file.files ≤ 65535
  pub files : All IsFileInformation file.files

module _ (raw : RawDataOps) (laws : RawDataLaws raw) where
  unfoldable info_Codes :
      (info : DownloadFileInformation)
      → IsFileInformation info
      → Codes (encode_file raw) (decode_file raw) info
  unfolding encode_file decode_file
  info_Codes info h =
      let c = string_Codes raw laws info.filename h.filename.text h.filename.short in
      let d = string_Codes raw laws info.description h.description.text h.description.short in
      record {
        bytes = c.bytes ++ d.bytes;
        writes = rw (c.writes, d.writes);
        reads = λ rest. rw (append_assoc, c.reads, d.reads);
      }

  info_size :
      (info : DownloadFileInformation) (h : IsFileInformation info)
      → length (info_Codes info h).bytes ≤ 510
  unfolding info_Codes
  info_size info h =
      let c = string_Codes raw laws info.filename h.filename.text h.filename.short in
      let d = string_Codes raw laws info.description h.description.text h.description.short in
      omega (
        arith,
        length-append c.bytes d.bytes,
        string_bounds raw laws info.filename h.filename.text h.filename.short,
        string_bounds raw laws info.description h.description.text h.description.short,
      )

  info_codec : ItemCodec DownloadFileInformation
  info_codec = record {
    encode_item = encode_file raw;
    decode_item = decode_file raw;
    IsItem = IsFileInformation;
    max_size = 510;
    codes = info_Codes;
    size = info_size;
  }

  body : (file : DownloadListFile) → IsDownloadList file → List ℕ
  unfolding info_codec
  body file h = counted_wire raw laws info_codec file.files h.files

  encode_lem :
      (file : DownloadListFile) (h : IsDownloadList file)
      → encode raw file ≡ ok (frame raw file.version (body file h))
  unfolding encode body info_codec
  encode_lem file h =
      let small = counted_bounds raw laws info_codec file.files h.files h.count (omega arith) in
      let n = length file.files in
      rw
        (
          le→leb n 65535 h.count,
          laws.safe_cast_lem u16 n (omega (arith, h.count)),
          start_with_lem raw laws n,
          encode_items_lem info_codec file.files h.files
              (replicate header_size 0 ++ raw.int_bytes u16 n),
        )
        (insert_header_lem raw laws file.version (body file h) (omega arith))

  -- A file with a supported version, at most 65535 files, and plain texts of at most 253 characters is
  -- written, and reading it sets the version and adds its files to those that the reading object holds
  -- already.
  pub decode-encode_download_list :
      (old file : DownloadListFile)
      → IsDownloadList file
      → (e : List ℕ) × (encode raw file ≡ ok e)
        × (decode raw old e
            ≡ ok (record { version = file.version; files = old.files ++ file.files }))
  unfolding decode body info_codec
  decode-encode_download_list old file h =
      let small = counted_bounds raw laws info_codec file.files h.files h.count (omega arith) in
      let whole = frame raw file.version (body file h) in
      let long : minimum_size ≤ length whole =
        omega (arith, length-frame raw laws file.version (body file h)) in
      (
        whole,
        encode_lem file h,
        rw (
          le→leb minimum_size (length whole) long,
          decode_header_lem raw laws file.version (body file h) h.version (omega arith),
          laws.get_int_lem u16 (length file.files) (items_wire info_codec file.files h.files)
              (omega (arith, h.count)),
          decode_items_end raw laws info_codec file.files h.files old.files,
        ),
      )
