-- ===== src/Files/LoadConfigurationListFile/RoundTrip.antt =====
-- What is written for a load configuration list is read back.
use arinc_615a_cli_tool_suit.Base.{
  All, List, [], ap, arith, encode_many, err, file_too_small, length, length-append, le→leb, lt→leb,
  ok, ok_injective, replicate, sym, ℕ, ◌%◌, ◌++◌, ◌+◌, ◌<◌, ◌^◌, ◌∙◌, ◌≡◌, ◌≤◌,
}
use arinc_615a_cli_tool_suit.Files.Buffers.{length-u16, start_with_lem}
use arinc_615a_cli_tool_suit.Files.Header.{header_size}
use arinc_615a_cli_tool_suit.Files.Header.Laws.{
  IsSupported, decode_header_lem, frame, insert_header_lem, insert_header_total, length-frame,
}
use arinc_615a_cli_tool_suit.Files.Items.{encode_items_lem, items_wire}
use arinc_615a_cli_tool_suit.Files.Items.Counted.{counted_wire, decode_items_end}
use arinc_615a_cli_tool_suit.Files.LoadConfigurationListFile.{
  LoadConfigurationListFile, decode, encode,
}
use arinc_615a_cli_tool_suit.Files.LoadConfigurationListFile.Items.{IsHardware, hardware_codec}
use arinc_615a_cli_tool_suit.RawData.{RawDataLaws, RawDataOps, u16, u32}
use arinc_615a_cli_tool_suit.Status.{Arinc615aVersion, version_value}

pub record IsLoadConfigurationList (file : LoadConfigurationListFile) : Type 0 where
  pub version : IsSupported file.version
  pub count : length file.targets_hardware ≤ 65535
  pub targets_hardware : All IsHardware file.targets_hardware

module _ (raw : RawDataOps) (laws : RawDataLaws raw) where
  body : (file : LoadConfigurationListFile) → IsLoadConfigurationList file → List ℕ
  unfolding hardware_codec
  body file h =
      counted_wire raw laws (hardware_codec raw laws) file.targets_hardware h.targets_hardware

  -- What `encode` writes: a frame whose size field wraps.
  encode_lem :
      (file : LoadConfigurationListFile) (h : IsLoadConfigurationList file)
      → encode raw file
        ≡ ok (
            raw.int_bytes u32 ((header_size + length (body file h)) % 2 ^ 32)
            ++ (raw.int_bytes u16 (version_value file.version) ++ body file h))
  unfolding encode body hardware_codec
  encode_lem file h =
      let n = length file.targets_hardware in
      let narrow : n % 2 ^ 16 ≡ n = omega (arith, h.count) in
      rw
        (
          le→leb n 65535 h.count,
          narrow,
          start_with_lem raw laws n,
          encode_items_lem (hardware_codec raw laws) file.targets_hardware h.targets_hardware
              (replicate header_size 0 ++ raw.int_bytes u16 n),
        )
        (insert_header_total raw laws file.version (body file h))

  decode_frame_lem :
      (old file : LoadConfigurationListFile) (h : IsLoadConfigurationList file)
      → 13 ≤ length (body file h)
      → header_size + length (body file h) < 2 ^ 32
      → decode raw old (frame raw file.version (body file h))
        ≡ ok (record {
          version = file.version;
          targets_hardware = old.targets_hardware ++ file.targets_hardware;
        })
  unfolding decode body hardware_codec
  decode_frame_lem old file h long small =
      let n = length file.targets_hardware in
      let whole = frame raw file.version (body file h) in
      let size = length-frame raw laws file.version (body file h) in
      rw (
        le→leb (header_size + 13) (length whole) (omega arith),
        decode_header_lem raw laws file.version (body file h) h.version small,
        laws.get_int_lem u16 n
            (items_wire (hardware_codec raw laws) file.targets_hardware h.targets_hardware)
            (omega (arith, h.count)),
        decode_items_end raw laws (hardware_codec raw laws) file.targets_hardware h.targets_hardware
            old.targets_hardware,
      )

  -- A list of hardware that can be sent is encoded, whatever its size.
  pub configuration_list_encodes :
      (file : LoadConfigurationListFile)
      → IsLoadConfigurationList file
      → (e : List ℕ) × (encode raw file ≡ ok e)
  configuration_list_encodes file h = (_, encode_lem file h)

  -- A file in the range of the size field is a frame.
  encode_frame_lem :
      (file : LoadConfigurationListFile) (h : IsLoadConfigurationList file) (e : List ℕ)
      → encode raw file ≡ ok e
      → length e < 2 ^ 32
      → (e ≡ frame raw file.version (body file h)) × (length e ≡ header_size + length (body file h))
  encode_frame_lem file h e written small =
      let n : ℕ = header_size + length (body file h) in
      let same = ok_injective (sym written ∙ encode_lem file h) in
      let size : length e ≡ n = omega (
        arith,
        ap length same,
        length-append (raw.int_bytes u32 (n % 2 ^ 32))
            (raw.int_bytes u16 (version_value file.version) ++ body file h),
        length-append (raw.int_bytes u16 (version_value file.version)) (body file h),
        laws.length-int_bytes u32 (n % 2 ^ 32),
        laws.length-int_bytes u16 (version_value file.version),
      ) in
      let narrow : n % 2 ^ 32 ≡ n = omega arith in (rw narrow at same, size)

  -- What is written for a file with a supported version, plain texts of at most 253 characters, and at
  -- most 65535 hardware and part numbers each, if it has 19 bytes and fewer than 2 ^ 32, is decoded, and
  -- adds the hardware of the file to what the reading object holds already.
  pub decode-encode_configuration_list :
      (old file : LoadConfigurationListFile) (e : List ℕ)
      → IsLoadConfigurationList file
      → encode raw file ≡ ok e
      → header_size + 13 ≤ length e
      → length e < 2 ^ 32
      → decode raw old e
        ≡ ok (record {
          version = file.version;
          targets_hardware = old.targets_hardware ++ file.targets_hardware;
        })
  decode-encode_configuration_list old file e h written long small =
      let (same, size) = encode_frame_lem file h e written small in
      rw same (decode_frame_lem old file h (omega arith) (omega arith))

  -- A file with no hardware is written, for any version, and what is written is refused as too small.
  pub decode-encode_no_hardware :
      (old : LoadConfigurationListFile) (version : Arinc615aVersion)
      → (e : List ℕ) × (encode raw (record { version = version; targets_hardware = [] }) ≡ ok e)
        × (decode raw old e ≡ err file_too_small)
  unfolding encode decode encode_many
  decode-encode_no_hardware old version =
      let body : List ℕ = raw.int_bytes u16 0 in
      let whole = frame raw version body in
      let short : length whole < header_size + 13 =
        omega (arith, length-frame raw laws version body, length-u16 raw laws 0) in
      (
        whole,
        rw (start_with_lem raw laws 0)
            (insert_header_lem raw laws version body (omega (arith, length-u16 raw laws 0))),
        rw (lt→leb (header_size + 13) (length whole) short),
      )
