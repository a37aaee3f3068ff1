-- ===== src/Tests/Configurations.antt =====
-- The load configuration list at concrete data, in network byte order.
use arinc_615a_cli_tool_suit.Base.{
  List, [], arith, encode_many, err, file_too_small, ok, refl, ℕ, ◌∷◌, ◌≡◌,
}
use arinc_615a_cli_tool_suit.Files.Buffers.{append_int, start_with}
use arinc_615a_cli_tool_suit.Files.Header.{insert_header}
use arinc_615a_cli_tool_suit.Files.LoadConfigurationListFile
use arinc_615a_cli_tool_suit.Files.LoadConfigurationListFile.{LoadConfigurationListFile}
use arinc_615a_cli_tool_suit.Files.LoadConfigurationListFile.RoundTrip.{
  IsLoadConfigurationList, decode-encode_configuration_list, decode-encode_no_hardware,
}
use arinc_615a_cli_tool_suit.Files.Strings.{clear_last, is_too_long, string_encode, write_string}
use arinc_615a_cli_tool_suit.RawData.BigEndian.{big_endian, big_endian-RawDataLaws}
use arinc_615a_cli_tool_suit.Status.{arinc_615a_34}
use arinc_615a_cli_tool_suit.Tests.Files.{plain_abc, plain_xyz, text_abc, text_xyz}

abbrev pub configuration_list : LoadConfigurationListFile
configuration_list = record {
  version = arinc_615a_34;
  targets_hardware =
      record {
        literal_name = text_abc;
        serial_number = text_xyz;
        part_numbers =
            record { part_number = text_xyz; amendment = []; part_designation = text_abc } ∷ [];
      }
      ∷ [];
}

pub configuration_list-IsLoadConfigurationList : IsLoadConfigurationList configuration_list
configuration_list-IsLoadConfigurationList = record {
  version = tt;
  count = omega arith;
  targets_hardware = (
    record {
      literal_name = plain_abc;
      serial_number = plain_xyz;
      count = omega arith;
      part_numbers = (
        record { part_number = plain_xyz; amendment = omega arith; part_designation = plain_abc },
        tt,
      );
    },
    tt,
  );
}

abbrev pub configuration_bytes : List ℕ
configuration_bytes =
    0 ∷ 0 ∷ 0 ∷ 31 ∷ 0x41 ∷ 0x34 ∷ 0 ∷ 1 ∷ 4 ∷ b'A' ∷ b'B' ∷ b'C' ∷ 0 ∷ 4 ∷ b'X' ∷ b'Y' ∷ b'Z' ∷ 0
    ∷ 0 ∷ 1 ∷ 4 ∷ b'X' ∷ b'Y' ∷ b'Z' ∷ 0 ∷ 0 ∷ 4 ∷ b'A' ∷ b'B' ∷ b'C' ∷ 0 ∷ []

pub configuration_list_bytes :
    LoadConfigurationListFile.encode big_endian configuration_list ≡ ok configuration_bytes
unfolding LoadConfigurationListFile.encode LoadConfigurationListFile.encode_hardware
    LoadConfigurationListFile.encode_part_number encode_many start_with append_int string_encode
    is_too_long write_string clear_last insert_header
configuration_list_bytes = refl

decode-encode_configuration_list_example :
    LoadConfigurationListFile.decode big_endian LoadConfigurationListFile.default
      configuration_bytes
    ≡ ok configuration_list
decode-encode_configuration_list_example =
    decode-encode_configuration_list big_endian big_endian-RawDataLaws
      LoadConfigurationListFile.default configuration_list configuration_bytes
      configuration_list-IsLoadConfigurationList configuration_list_bytes (omega arith)
      (omega arith)

decode-encode_no_hardware_example :
    (e : List ℕ) × (LoadConfigurationListFile.encode big_endian LoadConfigurationListFile.default
      ≡ ok e)
    × (LoadConfigurationListFile.decode big_endian LoadConfigurationListFile.default e
        ≡ err file_too_small)
decode-encode_no_hardware_example =
    decode-encode_no_hardware big_endian big_endian-RawDataLaws LoadConfigurationListFile.default
      arinc_615a_34
