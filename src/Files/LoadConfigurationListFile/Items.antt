-- ===== src/Files/LoadConfigurationListFile/Items.antt =====
-- The hardware and the part numbers of a load configuration list, written and read back.
use arinc_615a_cli_tool_suit.Base.{
  All, Codes, List, [], append_assoc, arith, length, length-append, le→leb, ok, ℕ, ◌%◌, ◌++◌, ◌^◌,
  ◌≡◌, ◌≤◌,
}
use arinc_615a_cli_tool_suit.Files.Buffers.{append_int_lem}
use arinc_615a_cli_tool_suit.Files.Items.{ItemCodec, decode_items_lem, encode_items_lem, items_wire}
use arinc_615a_cli_tool_suit.Files.Items.Counted.{counted_bounds, counted_wire}
use arinc_615a_cli_tool_suit.Files.LoadConfigurationListFile.{
  decode_hardware, decode_part_number, encode_hardware, encode_part_number,
}
use arinc_615a_cli_tool_suit.Files.Strings.{string_decode, string_encode}
use arinc_615a_cli_tool_suit.Files.Strings.Laws.{IsPlain, string_Codes, string_bounds}
use arinc_615a_cli_tool_suit.Information.{PartNumber, TargetHardware}
use arinc_615a_cli_tool_suit.RawData.{RawDataLaws, RawDataOps, u16}

pub record IsPartNumber (number : PartNumber) : Type 0 where
  pub part_number : IsPlain number.part_number
  pub amendment : IsPlain number.amendment
  pub part_designation : IsPlain number.part_designation

pub record IsHardware (thw : TargetHardware) : Type 0 where
  pub literal_name : IsPlain thw.literal_name
  pub serial_number : IsPlain thw.serial_number
  pub count : length thw.part_numbers ≤ 65535
  pub part_numbers : All IsPartNumber thw.part_numbers

module _ (raw : RawDataOps) (laws : RawDataLaws raw) where
  plain : (s : List ℕ) → IsPlain s → Codes (λ t. string_encode raw t 0) (string_decode raw) s
  plain s h = string_Codes raw laws s h.text h.short

  part_Codes :
      (number : PartNumber)
      → IsPartNumber number
      → Codes (encode_part_number raw) (decode_part_number raw) number
  unfolding encode_part_number decode_part_number
  part_Codes number h =
      let a = plain number.part_number h.part_number in
      let b = plain number.amendment h.amendment in
      let c = plain number.part_designation h.part_designation in
      record {
        bytes = a.bytes ++ (b.bytes ++ c.bytes);
        writes = rw (a.writes, b.writes, c.writes);
        reads = λ rest.
            simp append_assoc (
              rw (a.reads (b.bytes ++ (c.bytes ++ rest)), b.reads (c.bytes ++ rest), c.reads rest));
      }

  part_size :
      (number : PartNumber) (h : IsPartNumber number) → length (part_Codes number h).bytes ≤ 765
  unfolding part_Codes plain
  part_size number h =
      let a = (plain number.part_number h.part_number).bytes in
      let b = (plain number.amendment h.amendment).bytes in
      let c = (plain number.part_designation h.part_designation).bytes in
      omega (
        arith,
        length-append a (b ++ c),
        length-append b c,
        string_bounds raw laws number.part_number h.part_number.text h.part_number.short,
        string_bounds raw laws number.amendment h.amendment.text h.amendment.short,
        string_bounds raw laws number.part_designation h.part_designation.text
            h.part_designation.short,
      )

  part_codec : ItemCodec PartNumber
  part_codec = record {
    encode_item = encode_part_number raw;
    decode_item = decode_part_number raw;
    IsItem = IsPartNumber;
    max_size = 765;
    codes = part_Codes;
    size = part_size;
  }

  pub hardware_wire : (thw : TargetHardware) → IsHardware thw → List ℕ
  unfolding part_codec
  hardware_wire thw h =
      (plain thw.literal_name h.literal_name).bytes
      ++ ((plain thw.serial_number h.serial_number).bytes
          ++ counted_wire raw laws part_codec thw.part_numbers h.part_numbers)

  pub encode_hardware_lem :
      (thw : TargetHardware) (h : IsHardware thw)
      → encode_hardware raw thw ≡ ok (hardware_wire thw h)
  unfolding encode_hardware hardware_wire part_codec
  encode_hardware_lem thw h =
      let a = plain thw.literal_name h.literal_name in
      let b = plain thw.serial_number h.serial_number in
      let n = length thw.part_numbers in
      let narrow : n % 2 ^ 16 ≡ n = omega (arith, h.count) in
      let start = (a.bytes ++ b.bytes) ++ raw.int_bytes u16 n in
      rw
        (
          a.writes,
          b.writes,
          le→leb n 65535 h.count,
          narrow,
          append_int_lem raw laws u16 (a.bytes ++ b.bytes) n,
          encode_items_lem part_codec thw.part_numbers h.part_numbers start,
        )
        (simp append_assoc)

  pub decode_hardware_lem :
      (thw : TargetHardware) (h : IsHardware thw) (rest : List ℕ)
      → decode_hardware raw (hardware_wire thw h ++ rest) ≡ ok (rest, thw)
  unfolding decode_hardware hardware_wire part_codec
  decode_hardware_lem thw h rest =
      let a = plain thw.literal_name h.literal_name in
      let b = plain thw.serial_number h.serial_number in
      let n = length thw.part_numbers in
      let numbers = items_wire part_codec thw.part_numbers h.part_numbers in
      let counted = raw.int_bytes u16 n ++ (numbers ++ rest) in
      simp append_assoc (
        rw (
          a.reads (b.bytes ++ counted),
          b.reads counted,
          laws.get_int_lem u16 n (numbers ++ rest) (omega (arith, h.count)),
          decode_items_lem part_codec thw.part_numbers h.part_numbers [] rest,
        ))

  pub hardware_size :
      (thw : TargetHardware) (h : IsHardware thw) → length (hardware_wire thw h) ≤ 2 ^ 27
  unfolding hardware_wire plain part_codec
  hardware_size thw h =
      let a = (plain thw.literal_name h.literal_name).bytes in
      let b = (plain thw.serial_number h.serial_number).bytes in
      let c = counted_wire raw laws part_codec thw.part_numbers h.part_numbers in
      omega (
        arith,
        length-append a (b ++ c),
        length-append b c,
        counted_bounds raw laws part_codec thw.part_numbers h.part_numbers h.count (omega arith),
        string_bounds raw laws thw.literal_name h.literal_name.text h.literal_name.short,
        string_bounds raw laws thw.serial_number h.serial_number.text h.serial_number.short,
      )

  unfoldable pub hardware_codec : ItemCodec TargetHardware
  hardware_codec = record {
    encode_item = encode_hardware raw;
    decode_item = decode_hardware raw;
    IsItem = IsHardware;
    max_size = 2 ^ 27;
    codes = λ thw h. record {
      bytes = hardware_wire thw h;
      writes = encode_hardware_lem thw h;
      reads = decode_hardware_lem thw h;
    };
    size = hardware_size;
  }
