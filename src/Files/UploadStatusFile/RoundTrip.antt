-- ===== src/Files/UploadStatusFile/RoundTrip.antt =====
-- Encoding and decoding of the upload status file.
use arinc_615a_cli_tool_suit.Base.{
  All, Codes, List, [], append_assoc, arith, length, length-append, le→leb, ok, replicate, ℕ, ◌++◌,
  ◌+◌, ◌<◌, ◌^◌, ◌≡◌, ◌≤◌,
}
use arinc_615a_cli_tool_suit.Files.Buffers.{append_int_lem, length-u16}
use arinc_615a_cli_tool_suit.Files.Header.{header_size}
use arinc_615a_cli_tool_suit.Files.Header.Laws.{
  IsSupported, decode_header_lem, frame, insert_header_lem, length-frame,
}
use arinc_615a_cli_tool_suit.Files.Items.{ItemCodec, encode_items_lem, items_wire}
use arinc_615a_cli_tool_suit.Files.Items.Counted.{counted_bounds, counted_wire, decode_items_end}
use arinc_615a_cli_tool_suit.Files.Ratio.Laws.{IsRatio, ratio_Codes, ratio_size}
use arinc_615a_cli_tool_suit.Files.StateFields.RoundTrip.{
  decode_state_lem, encode_state_lem, length-state_wire, state_wire,
}
use arinc_615a_cli_tool_suit.Files.Strings.{string_decode, string_encode}
use arinc_615a_cli_tool_suit.Files.Strings.Laws.{IsPlain, string_Codes, string_bounds}
use arinc_615a_cli_tool_suit.Files.UploadStatusFile.{
  UploadStatusFile, decode, decode_load, encode, encode_load,
}
use arinc_615a_cli_tool_suit.Information.{UploadLoadStatus}
use arinc_615a_cli_tool_suit.Information.WellFormed.{IsStatus}
use arinc_615a_cli_tool_suit.RawData.{RawDataLaws, RawDataOps, u16}
use arinc_615a_cli_tool_suit.Status.{IsTransmitted, code_value}
use arinc_615a_cli_tool_suit.Status.Conversions.{code_value_bound, status_code-code_value}

pub record IsLoadStatus (load : UploadLoadStatus) : Type 0 where
  pub header_filename : IsPlain load.header_filename
  pub part_number : IsPlain load.part_number
  pub ratio : IsRatio load.ratio
  pub code : IsTransmitted load.code
  pub description : IsPlain load.description

pub record IsUploadStatus (file : UploadStatusFile) : Type 0 where
  pub version : IsSupported file.version
  pub status : IsStatus file.status.status
  pub list_ratio : IsRatio file.status.list_ratio
  pub count : length file.status.loads ≤ 65535
  pub loads : All IsLoadStatus file.status.loads

module _ (raw : RawDataOps) (laws : RawDataLaws raw) where
  plain : (s : List ℕ) → IsPlain s → Codes (λ t. string_encode raw t 0) (string_decode raw) s
  plain s h = string_Codes raw laws s h.text h.short

  load_wire : (load : UploadLoadStatus) → IsLoadStatus load → List ℕ
  unfolding plain
  load_wire load h =
      (plain load.header_filename h.header_filename).bytes
      ++ ((plain load.part_number h.part_number).bytes
          ++ ((ratio_Codes raw laws load.ratio h.ratio).bytes
              ++ (raw.int_bytes u16 (code_value load.code)
                  ++ (plain load.description h.description).bytes)))

  encode_load_lem :
      (load : UploadLoadStatus) (h : IsLoadStatus load)
      → encode_load raw load ≡ ok (load_wire load h)
  unfolding encode_load load_wire
  encode_load_lem load h =
      let a = plain load.header_filename h.header_filename in
      let b = plain load.part_number h.part_number in
      let r = ratio_Codes raw laws load.ratio h.ratio in
      let c = plain load.description h.description in
      rw
        (
          a.writes,
          b.writes,
          r.writes,
          append_int_lem raw laws u16 (a.bytes ++ (b.bytes ++ r.bytes)) (code_value load.code),
          c.writes,
        )
        (simp append_assoc)

  decode_load_lem :
      (load : UploadLoadStatus) (h : IsLoadStatus load) (rest : List ℕ)
      → decode_load raw (load_wire load h ++ rest) ≡ ok (rest, load)
  unfolding decode_load load_wire
  decode_load_lem load h rest =
      let a = plain load.header_filename h.header_filename in
      let b = plain load.part_number h.part_number in
      let r = ratio_Codes raw laws load.ratio h.ratio in
      let c = plain load.description h.description in
      let code = raw.int_bytes u16 (code_value load.code) ++ (c.bytes ++ rest) in
      simp append_assoc (
        rw (
          a.reads (b.bytes ++ (r.bytes ++ code)),
          b.reads (r.bytes ++ code),
          r.reads code,
          laws.get_int_lem u16 (code_value load.code) (c.bytes ++ rest)
              (code_value_bound load.code),
          c.reads rest,
          status_code-code_value load.code h.code,
        ))

  load_size : (load : UploadLoadStatus) (h : IsLoadStatus load) → length (load_wire load h) ≤ 1024
  unfolding load_wire plain
  load_size load h =
      let a = (plain load.header_filename h.header_filename).bytes in
      let b = (plain load.part_number h.part_number).bytes in
      let r = (ratio_Codes raw laws load.ratio h.ratio).bytes in
      let c = (plain load.description h.description).bytes in
      let k = raw.int_bytes u16 (code_value load.code) in
      omega (
        arith,
        length-append a (b ++ (r ++ (k ++ c))),
        length-append b (r ++ (k ++ c)),
        length-append r (k ++ c),
        length-append k c,
        length-u16 raw laws (code_value load.code),
        ratio_size raw laws load.ratio h.ratio,
        string_bounds raw laws load.header_filename h.header_filename.text h.header_filename.short,
        string_bounds raw laws load.part_number h.part_number.text h.part_number.short,
        string_bounds raw laws load.description h.description.text h.description.short,
      )

  load_codec : ItemCodec UploadLoadStatus
  load_codec = record {
    encode_item = encode_load raw;
    decode_item = decode_load raw;
    IsItem = IsLoadStatus;
    max_size = 1024;
    codes = λ load h. record {
      bytes = load_wire load h;
      writes = encode_load_lem load h;
      reads = decode_load_lem load h;
    };
    size = load_size;
  }

  body : (file : UploadStatusFile) → IsUploadStatus file → List ℕ
  unfolding load_codec
  body file h =
      state_wire raw laws file.status.status h.status file.status.list_ratio h.list_ratio
      ++ counted_wire raw laws load_codec file.status.loads h.loads

  body_bounds :
      (file : UploadStatusFile) (h : IsUploadStatus file)
      → (9 ≤ length (body file h)) × (length (body file h) < 2 ^ 31)
  unfolding body load_codec
  body_bounds file h =
      let s = file.status in
      omega (
        arith,
        length-append (state_wire raw laws s.status h.status s.list_ratio h.list_ratio)
            (counted_wire raw laws load_codec s.loads h.loads),
        length-state_wire raw laws s.status h.status s.list_ratio h.list_ratio,
        counted_bounds raw laws load_codec s.loads h.loads h.count (omega arith),
      )

  encode_lem :
      (file : UploadStatusFile) (h : IsUploadStatus file)
      → encode raw file ≡ ok (frame raw file.version (body file h))
  unfolding encode body load_codec
  encode_lem file h =
      let s = file.status in
      let n = length s.loads in
      let small = body_bounds file h in
      let start =
        replicate header_size 0
        ++ state_wire raw laws s.status h.status s.list_ratio h.list_ratio in
      rw
        (
          encode_state_lem raw laws s.status h.status s.list_ratio h.list_ratio,
          le→leb n 65535 h.count,
          laws.safe_cast_lem u16 n (omega (arith, h.count)),
          append_int_lem raw laws u16 start n,
          encode_items_lem load_codec s.loads h.loads (start ++ raw.int_bytes u16 n),
        )
        (simp append_assoc (insert_header_lem raw laws file.version (body file h) (omega arith)))

  -- A file with a supported version, numbers within their widths, percentages, status codes that may be
  -- sent, at most 65535 loads, and plain texts of at most 253 characters is written, and read back
  -- whatever the reading object held before.
  pub decode-encode_upload_status :
      (old file : UploadStatusFile)
      → IsUploadStatus file
      → (e : List ℕ) × (encode raw file ≡ ok e) × (decode raw old e ≡ ok file)
  unfolding decode body load_codec
  decode-encode_upload_status old file h =
      let s = file.status in
      let small = body_bounds file h in
      let whole = frame raw file.version (body file h) in
      let long : header_size + 9 ≤ length whole =
        omega (arith, length-frame raw laws file.version (body file h)) in
      (
        whole,
        encode_lem file h,
        rw (
          le→leb (header_size + 9) (length whole) long,
          decode_header_lem raw laws file.version (body file h) h.version (omega arith),
          decode_state_lem raw laws s.status h.status s.list_ratio h.list_ratio
              (counted_wire raw laws load_codec s.loads h.loads),
          laws.get_int_lem u16 (length s.loads) (items_wire load_codec s.loads h.loads)
              (omega (arith, h.count)),
          decode_items_end raw laws load_codec s.loads h.loads [],
        ),
      )
