-- ===== src/Files/UploadRequestFile/RoundTrip.antt =====
-- Encoding and decoding of the upload request file.
use arinc_615a_cli_tool_suit.Base.{
  All, Codes, List, append_assoc, arith, length, length-append, le→leb, ok, replicate, ℕ, ◌++◌, ◌≡◌,
  ◌≤◌,
}
use arinc_615a_cli_tool_suit.Files.Buffers.{start_with_lem}
use arinc_615a_cli_tool_suit.Files.Header.{header_size}
use arinc_615a_cli_tool_suit.Files.Header.Laws.{
  IsSupported, decode_header_lem, frame, insert_header_lem, length-frame,
}
use arinc_615a_cli_tool_suit.Files.Items.{ItemCodec, encode_items_lem, items_wire}
use arinc_615a_cli_tool_suit.Files.Items.Counted.{counted_bounds, counted_wire, decode_items_end}
use arinc_615a_cli_tool_suit.Files.Strings.Laws.{IsPlain, string_Codes, string_bounds}
use arinc_615a_cli_tool_suit.Files.UploadRequestFile.{
  UploadRequestFile, decode, decode_load, encode, encode_load, minimum_size,
}
use arinc_615a_cli_tool_suit.Information.{UploadLoad}
use arinc_615a_cli_tool_suit.RawData.{RawDataLaws, RawDataOps, u16}

pub record IsLoad (load : UploadLoad) : Type 0 where
  pub header_filename : IsPlain load.header_filename
  pub part_number : IsPlain load.part_number

pub record IsUploadRequest (file : UploadRequestFile) : Type 0 where
  pub version : IsSupported file.version
  pub count : length file.loads ≤ 65535
  pub loads : All IsLoad file.loads

module _ (raw : RawDataOps) (laws : RawDataLaws raw) where
  unfoldable load_Codes :
      (load : UploadLoad) → IsLoad load → Codes (encode_load raw) (decode_load raw) load
  unfolding encode_load decode_load
  load_Codes load h =
      let c =
        string_Codes raw laws load.header_filename h.header_filename.text h.header_filename.short in
      let d = string_Codes raw laws load.part_number h.part_number.text h.part_number.short in
      record {
        bytes = c.bytes ++ d.bytes;
        writes = rw (c.writes, d.writes);
        reads = λ rest. rw (append_assoc, c.reads, d.reads);
      }

  load_size : (load : UploadLoad) (h : IsLoad load) → length (load_Codes load h).bytes ≤ 510
  unfolding load_Codes
  load_size load h =
      let c =
        string_Codes raw laws load.header_filename h.header_filename.text h.header_filename.short in
      let d = string_Codes raw laws load.part_number h.part_number.text h.part_number.short in
      omega (
        arith,
        length-append c.bytes d.bytes,
        string_bounds raw laws load.header_filename h.header_filename.text h.header_filename.short,
        string_bounds raw laws load.part_number h.part_number.text h.part_number.short,
      )

  load_codec : ItemCodec UploadLoad
  load_codec = record {
    encode_item = encode_load raw;
    decode_item = decode_load raw;
    IsItem = IsLoad;
    max_size = 510;
    codes = load_Codes;
    size = load_size;
  }

  body : (file : UploadRequestFile) → IsUploadRequest file → List ℕ
  unfolding load_codec
  body file h = counted_wire raw laws load_codec file.loads h.loads

  encode_lem :
      (file : UploadRequestFile) (h : IsUploadRequest file)
      → encode raw file ≡ ok (frame raw file.version (body file h))
  unfolding encode body load_codec
  encode_lem file h =
      let small = counted_bounds raw laws load_codec file.loads h.loads h.count (omega arith) in
      let n = length file.loads in
      rw
        (
          le→leb n 65535 h.count,
          laws.safe_cast_lem u16 n (omega (arith, h.count)),
          start_with_lem raw laws n,
          encode_items_lem load_codec file.loads h.loads
              (replicate header_size 0 ++ raw.int_bytes u16 n),
        )
        (insert_header_lem raw laws file.version (body file h) (omega arith))

  -- A file with a supported version, at most 65535 loads, and plain texts of at most 253 characters is
  -- written, and reading it sets the version and adds its loads to those that the reading object holds
  -- already.
  pub decode-encode_upload_request :
      (old file : UploadRequestFile)
      → IsUploadRequest file
      → (e : List ℕ) × (encode raw file ≡ ok e)
        × (decode raw old e
            ≡ ok (record { version = file.version; loads = old.loads ++ file.loads }))
  unfolding decode body load_codec
  decode-encode_upload_request old file h =
      let small = counted_bounds raw laws load_codec file.loads h.loads h.count (omega arith) in
      let whole = frame raw file.version (body file h) in
      let long : minimum_size ≤ length whole =
        omega (arith, length-frame raw laws file.version (body file h)) in
      (
        whole,
        encode_lem file h,
        rw (
          le→leb minimum_size (length whole) long,
          decode_header_lem raw laws file.version (body file h) h.version (omega arith),
          laws.get_int_lem u16 (length file.loads) (items_wire load_codec file.loads h.loads)
              (omega (arith, h.count)),
          decode_items_end raw laws load_codec file.loads h.loads old.loads,
        ),
      )
