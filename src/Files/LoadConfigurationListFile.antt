-- ===== src/Files/LoadConfigurationListFile.antt =====
-- lib/arinc_615a/files/information/LoadConfigurationListFile.cpp (LCL): the hardware and the part
-- numbers that a target reports.
pub mod Items
pub mod RoundTrip
use arinc_615a_cli_tool_suit.Base.{
  List, Result, [], decode_many, encode_many, file_too_small, is_empty, leb, length,
  more_data_than_expected, ok, require, too_many_items, ℕ, ◌%◌, ◌++◌, ◌+◌, ◌>>=◌, ◌^◌, ◌>>◌,
}
use arinc_615a_cli_tool_suit.Files.Buffers.{append_int, start_with}
use arinc_615a_cli_tool_suit.Files.Header.{decode_header, header_size, insert_header}
use arinc_615a_cli_tool_suit.Files.Strings.{string_decode, string_encode}
use arinc_615a_cli_tool_suit.Information.{PartNumber, TargetHardware}
use arinc_615a_cli_tool_suit.RawData.{RawDataOps, u16}
use arinc_615a_cli_tool_suit.Status.{Arinc615aVersion, arinc_615a_34}

pub record LoadConfigurationListFile : Type 0 where
  pub version : Arinc615aVersion
  pub targets_hardware : List TargetHardware

-- The default-constructed file.
abbrev pub default : LoadConfigurationListFile
default = record { version = arinc_615a_34; targets_hardware = [] }

module _ (raw : RawDataOps) where
  -- The body of the inner loop of `encode`.
  unfoldable pub encode_part_number : PartNumber → Result (List ℕ)
  encode_part_number number = do
    raw_part_number ← string_encode raw number.part_number 0
    raw_amendment ← string_encode raw number.amendment 0
    raw_part_designation_text ← string_encode raw number.part_designation 0
    ok (raw_part_number ++ (raw_amendment ++ raw_part_designation_text))

  -- The body of the outer loop of `encode`.
  unfoldable pub encode_hardware : TargetHardware → Result (List ℕ)
  encode_hardware thw = do
    raw_target_hardware_code ← string_encode raw thw.literal_name 0
    raw_serial_number ← string_encode raw thw.serial_number 0
    require (leb (length thw.part_numbers) 65535) too_many_items
    raw_data ←
        append_int raw u16 (raw_target_hardware_code ++ raw_serial_number)
          (length thw.part_numbers % 2 ^ 16)
    encode_many encode_part_number thw.part_numbers raw_data

  unfoldable pub encode : LoadConfigurationListFile → Result (List ℕ)
  encode file = do
    require (leb (length file.targets_hardware) 65535) too_many_items
    raw_data ← start_with raw (length file.targets_hardware % 2 ^ 16)
    raw_data' ← encode_many encode_hardware file.targets_hardware raw_data
    insert_header raw file.version raw_data'

  unfoldable pub decode_part_number : List ℕ → Result (List ℕ × PartNumber)
  decode_part_number remaining = do
    (remaining₁, part_number) ← string_decode raw remaining
    (remaining₂, amendment) ← string_decode raw remaining₁
    (remaining₃, part_designation) ← string_decode raw remaining₂
    let number : PartNumber = record {
      part_number = part_number;
      amendment = amendment;
      part_designation = part_designation;
    }
    ok (remaining₃, number)

  unfoldable pub decode_hardware : List ℕ → Result (List ℕ × TargetHardware)
  decode_hardware remaining = do
    (remaining₁, literal_name) ← string_decode raw remaining
    (remaining₂, serial_number) ← string_decode raw remaining₁
    (remaining₃, part_numbers_count) ← raw.get_int u16 remaining₂
    (remaining₄, part_numbers) ← decode_many decode_part_number part_numbers_count [] remaining₃
    let thw : TargetHardware = record {
      literal_name = literal_name;
      serial_number = serial_number;
      part_numbers = part_numbers;
    }
    ok (remaining₄, thw)

  -- The hardware is added to what the object holds already.
  unfoldable pub decode : LoadConfigurationListFile → List ℕ → Result LoadConfigurationListFile
  decode file raw_data = do
    require (leb (header_size + 13) (length raw_data)) file_too_small
    (remaining, version) ← decode_header raw raw_data
    (remaining', count) ← raw.get_int u16 remaining
    (remaining'', targets_hardware) ←
        decode_many decode_hardware count file.targets_hardware remaining'
    require (is_empty remaining'') more_data_than_expected
    ok (record { version = version; targets_hardware = targets_hardware })
