-- ===== src/Files/DownloadAnswerFile/RoundTrip.antt =====
-- Encoding and decoding of the download answer file.
use arinc_615a_cli_tool_suit.Base.{
  All, List, arith, length, le→leb, ok, replicate, ℕ, ◌++◌, ◌≡◌, ◌≤◌,
}
use arinc_615a_cli_tool_suit.Files.Buffers.{start_with_lem}
use arinc_615a_cli_tool_suit.Files.DownloadAnswerFile.{
  DownloadAnswerFile, decode, encode, minimum_size,
}
use arinc_615a_cli_tool_suit.Files.Header.{header_size}
use arinc_615a_cli_tool_suit.Files.Header.Laws.{
  IsSupported, decode_header_lem, frame, insert_header_lem, length-frame,
}
use arinc_615a_cli_tool_suit.Files.Items.{encode_items_lem, items_wire}
use arinc_615a_cli_tool_suit.Files.Items.Counted.{counted_bounds, counted_wire, decode_items_end}
use arinc_615a_cli_tool_suit.Files.Strings.Laws.{IsPlain, text_codec}
use arinc_615a_cli_tool_suit.RawData.{RawDataLaws, RawDataOps, u16}

pub record IsDownloadAnswer (file : DownloadAnswerFile) : Type 0 where
  pub version : IsSupported file.version
  pub count : length file.files ≤ 65535
  pub files : All IsPlain file.files

module _ (raw : RawDataOps) (laws : RawDataLaws raw) where
  body : (file : DownloadAnswerFile) → IsDownloadAnswer file → List ℕ
  unfolding text_codec
  body file h = counted_wire raw laws (text_codec raw laws) file.files h.files

  encode_lem :
      (file : DownloadAnswerFile) (h : IsDownloadAnswer file)
      → encode raw file ≡ ok (frame raw file.version (body file h))
  unfolding encode body text_codec
  encode_lem file h =
      let codec = text_codec raw laws in
      let small = counted_bounds raw laws codec file.files h.files h.count (omega arith) in
      let n = length file.files in
      rw
        (
          le→leb n 65535 h.count,
          laws.safe_cast_lem u16 n (omega (arith, h.count)),
          start_with_lem raw laws n,
          encode_items_lem codec file.files h.files
              (replicate header_size 0 ++ raw.int_bytes u16 n),
        )
        (insert_header_lem raw laws file.version (body file h) (omega arith))

  -- A file with a supported version, at most 65535 files, and plain texts of at most 253 characters is
  -- written, and reading it sets the version and adds its files to those that the reading object holds
  -- already.
  pub decode-encode_download_answer :
      (old file : DownloadAnswerFile)
      → IsDownloadAnswer file
      → (e : List ℕ) × (encode raw file ≡ ok e)
        × (decode raw old e
            ≡ ok (record { version = file.version; files = old.files ++ file.files }))
  unfolding decode body text_codec
  decode-encode_download_answer old file h =
      let codec = text_codec raw laws in
      let small = counted_bounds raw laws codec file.files h.files h.count (omega arith) in
      let whole = frame raw file.version (body file h) in
      let long : minimum_size ≤ length whole =
        omega (arith, length-frame raw laws file.version (body file h)) in
      (
        whole,
        encode_lem file h,
        rw (
          le→leb minimum_size (length whole) long,
          decode_header_lem raw laws file.version (body file h) h.version (omega arith),
          laws.get_int_lem u16 (length file.files) (items_wire codec file.files h.files)
              (omega (arith, h.count)),
          decode_items_end raw laws codec file.files h.files old.files,
        ),
      )
