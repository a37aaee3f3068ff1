-- ===== src/Files/DownloadRequestFile/RoundTrip.antt =====
-- Encoding and decoding of the download request file.
use arinc_615a_cli_tool_suit.Base.{
  ==_refl, All, List, append_assoc, arith, length, length-append, le→leb, ok, replicate, ℕ, ◌++◌,
  ◌<◌, ◌^◌, ◌≡◌, ◌≤◌,
}
use arinc_615a_cli_tool_suit.Files.Buffers.{append_int_lem, start_with_lem}
use arinc_615a_cli_tool_suit.Files.DownloadRequestFile.{
  DownloadRequestFile, decode, encode, minimum_size,
}
use arinc_615a_cli_tool_suit.Files.Header.{header_size}
use arinc_615a_cli_tool_suit.Files.Header.Laws.{
  IsSupported, decode_header_lem, frame, insert_header_lem, length-frame,
}
use arinc_615a_cli_tool_suit.Files.Items.{decode_items_lem, encode_items_lem, items_wire}
use arinc_615a_cli_tool_suit.Files.Items.Counted.{counted_bounds, counted_wire}
use arinc_615a_cli_tool_suit.Files.Strings.Laws.{IsPlain, text_codec}
use arinc_615a_cli_tool_suit.RawData.{RawDataLaws, RawDataOps, u16, u8}

pub record IsDownloadRequest (file : DownloadRequestFile) : Type 0 where
  pub version : IsSupported file.version
  pub count : length file.files ≤ 65535
  pub files : All IsPlain file.files
  pub user_defined_data : length file.user_defined_data ≤ 255

module _ (raw : RawDataOps) (laws : RawDataLaws raw) where
  -- The files, the length of the user-defined data and the data.
  body : (file : DownloadRequestFile) → IsDownloadRequest file → List ℕ
  unfolding text_codec
  body file h =
      counted_wire raw laws (text_codec raw laws) file.files h.files
      ++ (raw.int_bytes u8 (length file.user_defined_data) ++ file.user_defined_data)

  body_bounds :
      (file : DownloadRequestFile) (h : IsDownloadRequest file)
      → (3 ≤ length (body file h)) × (length (body file h) < 2 ^ 31)
  unfolding body text_codec
  body_bounds file h =
      let codec = text_codec raw laws in
      let small = counted_bounds raw laws codec file.files h.files h.count (omega arith) in
      let data_size = h.user_defined_data in
      let user = raw.int_bytes u8 (length file.user_defined_data) in
      omega (
        arith,
        length-append (counted_wire raw laws codec file.files h.files)
            (user ++ file.user_defined_data),
        length-append user file.user_defined_data,
        laws.length-int_bytes u8 (length file.user_defined_data),
      )

  encode_lem :
      (file : DownloadRequestFile) (h : IsDownloadRequest file)
      → encode raw file ≡ ok (frame raw file.version (body file h))
  unfolding encode body text_codec
  encode_lem file h =
      let codec = text_codec raw laws in
      let small = body_bounds file h in
      let n = length file.files in
      let k = length file.user_defined_data in
      let start = replicate header_size 0 ++ raw.int_bytes u16 n in
      rw
        (
          le→leb n 65535 h.count,
          laws.safe_cast_lem u16 n (omega (arith, h.count)),
          start_with_lem raw laws n,
          encode_items_lem codec file.files h.files start,
          le→leb k 255 h.user_defined_data,
          laws.safe_cast_lem u8 k (omega (arith, h.user_defined_data)),
          append_int_lem raw laws u8 (start ++ items_wire codec file.files h.files) k,
        )
        (rw (fold (items_wire codec file.files h.files) n k file.user_defined_data)
          (insert_header_lem raw laws file.version (body file h) (omega arith)))
    where
      fold :
          (items : List ℕ) (n k : ℕ) (user_data : List ℕ)
          → (((replicate header_size 0 ++ raw.int_bytes u16 n) ++ items) ++ raw.int_bytes u8 k)
              ++ user_data
            ≡ replicate header_size 0
              ++ ((raw.int_bytes u16 n ++ items) ++ (raw.int_bytes u8 k ++ user_data))
      fold items n k user_data = simp append_assoc

  -- A file with a supported version, at most 65535 files with plain names of at most 253 characters, and
  -- at most 255 bytes of user defined data is written, and reading it sets the version, adds its files
  -- to those that the reading object holds already, and replaces the user defined data.
  pub decode-encode_download_request :
      (old file : DownloadRequestFile)
      → IsDownloadRequest file
      → (e : List ℕ) × (encode raw file ≡ ok e)
        × (decode raw old e ≡ ok (record file { files = old.files ++ file.files }))
  unfolding decode body text_codec
  decode-encode_download_request old file h =
      let codec = text_codec raw laws in
      let small = body_bounds file h in
      let k = length file.user_defined_data in
      let whole = frame raw file.version (body file h) in
      let long : minimum_size ≤ length whole =
        omega (arith, length-frame raw laws file.version (body file h)) in
      let items = items_wire codec file.files h.files in
      let user_data = raw.int_bytes u8 k ++ file.user_defined_data in
      (
        whole,
        encode_lem file h,
        rw (
          le→leb minimum_size (length whole) long,
          decode_header_lem raw laws file.version (body file h) h.version (omega arith),
          append_assoc (raw.int_bytes u16 (length file.files)) items user_data,
          laws.get_int_lem u16 (length file.files) (items ++ user_data) (omega (arith, h.count)),
          decode_items_lem codec file.files h.files old.files user_data,
          laws.get_int_lem u8 k file.user_defined_data (omega (arith, h.user_defined_data)),
          ==_refl k,
        ),
      )
