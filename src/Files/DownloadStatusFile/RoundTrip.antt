-- ===== src/Files/DownloadStatusFile/RoundTrip.antt =====
-- Encoding and decoding of the download status file.
use arinc_615a_cli_tool_suit.Base.{
  All, Codes, List, [], append_assoc, arith, length, length-append, le→leb, ok, replicate, ℕ, ◌++◌,
  ◌+◌, ◌<◌, ◌^◌, ◌≡◌, ◌≤◌,
}
use arinc_615a_cli_tool_suit.Files.Buffers.{append_int_lem, length-u16}
use arinc_615a_cli_tool_suit.Files.DownloadStatusFile.{
  DownloadStatusFile, decode, decode_file, encode, encode_file,
}
use arinc_615a_cli_tool_suit.Files.Header.{header_size}
use arinc_615a_cli_tool_suit.Files.Header.Laws.{
  IsSupported, decode_header_lem, frame, insert_header_lem, length-frame,
}
use arinc_615a_cli_tool_suit.Files.Items.{ItemCodec, encode_items_lem, items_wire}
use arinc_615a_cli_tool_suit.Files.Items.Counted.{counted_bounds, counted_wire, decode_items_end}
use arinc_615a_cli_tool_suit.Files.Ratio.Laws.{IsRatio}
use arinc_615a_cli_tool_suit.Files.StateFields.RoundTrip.{
  decode_state_lem, encode_state_lem, length-state_wire, state_wire,
}
use arinc_615a_cli_tool_suit.Files.Strings.{string_decode, string_encode}
use arinc_615a_cli_tool_suit.Files.Strings.Laws.{IsPlain, string_Codes, string_bounds}
use arinc_615a_cli_tool_suit.Information.{DownloadFileStatus}
use arinc_615a_cli_tool_suit.Information.WellFormed.{IsStatus}
use arinc_615a_cli_tool_suit.RawData.{RawDataLaws, RawDataOps, u16}
use arinc_615a_cli_tool_suit.Status.{IsTransmitted, code_value}
use arinc_615a_cli_tool_suit.Status.Conversions.{code_value_bound, status_code-code_value}

pub record IsFileStatus (info : DownloadFileStatus) : Type 0 where
  pub filename : IsPlain info.filename
  pub code : IsTransmitted info.code
  pub description : IsPlain info.description

pub record IsDownloadStatus (file : DownloadStatusFile) : Type 0 where
  pub version : IsSupported file.version
  pub status : IsStatus file.status.status
  pub list_ratio : IsRatio file.status.list_ratio
  pub count : length file.status.files ≤ 65535
  pub files : All IsFileStatus file.status.files

module _ (raw : RawDataOps) (laws : RawDataLaws raw) where
  plain : (s : List ℕ) → IsPlain s → Codes (λ t. string_encode raw t 0) (string_decode raw) s
  plain s h = string_Codes raw laws s h.text h.short

  file_wire : (info : DownloadFileStatus) → IsFileStatus info → List ℕ
  unfolding plain
  file_wire info h =
      (plain info.filename h.filename).bytes
      ++ (raw.int_bytes u16 (code_value info.code) ++ (plain info.description h.description).bytes)

  encode_file_lem :
      (info : DownloadFileStatus) (h : IsFileStatus info)
      → encode_file raw info ≡ ok (file_wire info h)
  unfolding encode_file file_wire
  encode_file_lem info h =
      let a = plain info.filename h.filename in
      let c = plain info.description h.description in
      rw (a.writes, append_int_lem raw laws u16 a.bytes (code_value info.code), c.writes)
        (simp append_assoc)

  decode_file_lem :
      (info : DownloadFileStatus) (h : IsFileStatus info) (rest : List ℕ)
      → decode_file raw (file_wire info h ++ rest) ≡ ok (rest, info)
  unfolding decode_file file_wire
  decode_file_lem info h rest =
      let a = plain info.filename h.filename in
      let c = plain info.description h.description in
      let code = raw.int_bytes u16 (code_value info.code) ++ (c.bytes ++ rest) in
      simp append_assoc (
        rw (
          a.reads code,
          laws.get_int_lem u16 (code_value info.code) (c.bytes ++ rest)
              (code_value_bound info.code),
          c.reads rest,
          status_code-code_value info.code h.code,
        ))

  file_size : (info : DownloadFileStatus) (h : IsFileStatus info) → length (file_wire info h) ≤ 1024
  unfolding file_wire plain
  file_size info h =
      let a = (plain info.filename h.filename).bytes in
      let c = (plain info.description h.description).bytes in
      let k = raw.int_bytes u16 (code_value info.code) in
      omega (
        arith,
        length-append a (k ++ c),
        length-append k c,
        length-u16 raw laws (code_value info.code),
        string_bounds raw laws info.filename h.filename.text h.filename.short,
        string_bounds raw laws info.description h.description.text h.description.short,
      )

  file_codec : ItemCodec DownloadFileStatus
  file_codec = record {
    encode_item = encode_file raw;
    decode_item = decode_file raw;
    IsItem = IsFileStatus;
    max_size = 1024;
    codes = λ info h. record {
      bytes = file_wire info h;
      writes = encode_file_lem info h;
      reads = decode_file_lem info h;
    };
    size = file_size;
  }

  body : (file : DownloadStatusFile) → IsDownloadStatus file → List ℕ
  unfolding file_codec
  body file h =
      state_wire raw laws file.status.status h.status file.status.list_ratio h.list_ratio
      ++ counted_wire raw laws file_codec file.status.files h.files

  body_bounds :
      (file : DownloadStatusFile) (h : IsDownloadStatus file)
      → (9 ≤ length (body file h)) × (length (body file h) < 2 ^ 31)
  unfolding body file_codec
  body_bounds file h =
      let s = file.status in
      omega (
        arith,
        length-append (state_wire raw laws s.status h.status s.list_ratio h.list_ratio)
            (counted_wire raw laws file_codec s.files h.files),
        length-state_wire raw laws s.status h.status s.list_ratio h.list_ratio,
        counted_bounds raw laws file_codec s.files h.files h.count (omega arith),
      )

  encode_lem :
      (file : DownloadStatusFile) (h : IsDownloadStatus file)
      → encode raw file ≡ ok (frame raw file.version (body file h))
  unfolding encode body file_codec
  encode_lem file h =
      let s = file.status in
      let n = length s.files in
      let small = body_bounds file h in
      let start =
        replicate header_size 0
        ++ state_wire raw laws s.status h.status s.list_ratio h.list_ratio in
      rw
        (
          encode_state_lem raw laws s.status h.status s.list_ratio h.list_ratio,
          le→leb n 65535 h.count,
          laws.safe_cast_lem u16 n (omega (arith, h.count)),
          append_int_lem raw laws u16 start n,
          encode_items_lem file_codec s.files h.files (start ++ raw.int_bytes u16 n),
        )
        (simp append_assoc (insert_header_lem raw laws file.version (body file h) (omega arith)))

  -- A file with a supported version, numbers within their widths, a percentage, status codes that may
  -- be sent, at most 65535 files, and plain texts of at most 253 characters is written, and read back
  -- whatever the reading object held before.
  pub decode-encode_download_status :
      (old file : DownloadStatusFile)
      → IsDownloadStatus file
      → (e : List ℕ) × (encode raw file ≡ ok e) × (decode raw old e ≡ ok file)
  unfolding decode body file_codec
  decode-encode_download_status old file h =
      let s = file.status in
      let small = body_bounds file h in
      let whole = frame raw file.version (body file h) in
      let long : header_size + 9 ≤ length whole =
        omega (arith, length-frame raw laws file.version (body file h)) in
      (
        whole,
        encode_lem file h,
        rw (
          le→leb (header_size + 9) (length whole) long,
          decode_header_lem raw laws file.version (body file h) h.version (omega arith),
          decode_state_lem raw laws s.status h.status s.list_ratio h.list_ratio
              (counted_wire raw laws file_codec s.files h.files),
          laws.get_int_lem u16 (length s.files) (items_wire file_codec s.files h.files)
              (omega (arith, h.count)),
          decode_items_end raw laws file_codec s.files h.files [],
        ),
      )
