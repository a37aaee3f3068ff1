-- ===== src/Tests/Formats.antt =====
-- Strings, ratios, headers and status codes at concrete data.
use arinc_615a_cli_tool_suit.Base.{
  List, [], find, length, ok, refl, ℕ, ◌+◌, ◌<◌, ◌^◌, ◌∷◌, ◌≡◌, ◌≤◌,
}
use arinc_615a_cli_tool_suit.Files.Header.{decode_header, header_size, protocol_version}
use arinc_615a_cli_tool_suit.Files.Header.Laws.{IsSupported, decode_header_sound}
use arinc_615a_cli_tool_suit.Files.Ratio.{Ratio, make_ratio, ratio_decode, stoul}
use arinc_615a_cli_tool_suit.Files.Strings.{decode_content, string_decode}
use arinc_615a_cli_tool_suit.Files.Strings.Laws.{string_decode_sound}
use arinc_615a_cli_tool_suit.Files.Strings.Wire.{IsText}
use arinc_615a_cli_tool_suit.RawData.BigEndian.{big_endian, big_endian-RawDataLaws}
use arinc_615a_cli_tool_suit.Status.{arinc_615a_34, denied, operation_acceptance_status_code}

abbrev text_bytes : List ℕ
text_bytes = 3 ∷ b'O' ∷ b'K' ∷ 0 ∷ 9 ∷ []

abbrev text_ok : List ℕ
text_ok = b'O' ∷ b'K' ∷ []

text_bytes_read : string_decode big_endian text_bytes ≡ ok (9 ∷ [], text_ok)
unfolding string_decode decode_content find
text_bytes_read = refl

string_decode_sound_example :
    IsText text_ok × (length text_ok ≤ 254) × (length {A = ℕ} (9 ∷ []) < length text_bytes)
string_decode_sound_example =
    string_decode_sound big_endian big_endian-RawDataLaws text_bytes (9 ∷ []) text_ok
      text_bytes_read

abbrev header_bytes : List ℕ
header_bytes = 0 ∷ 0 ∷ 0 ∷ 8 ∷ 0x41 ∷ 0x34 ∷ 1 ∷ 2 ∷ []

header_bytes_read : decode_header big_endian header_bytes ≡ ok (1 ∷ 2 ∷ [], arinc_615a_34)
unfolding decode_header protocol_version
header_bytes_read = refl

decode_header_sound_example :
    IsSupported arinc_615a_34
    × (length header_bytes ≡ header_size + length {A = ℕ} (1 ∷ 2 ∷ []))
    × (length header_bytes < 2 ^ 32)
decode_header_sound_example =
    decode_header_sound big_endian big_endian-RawDataLaws header_bytes (1 ∷ 2 ∷ []) arinc_615a_34
      header_bytes_read

abbrev half : Ratio
half = record { value = 50 }

abbrev ratio_bytes : List ℕ
ratio_bytes = b'0' ∷ b'5' ∷ b'0' ∷ 7 ∷ []

ratio_bytes_read : ratio_decode big_endian ratio_bytes ≡ ok (7 ∷ [], half)
unfolding ratio_decode make_ratio stoul
ratio_bytes_read = refl

acceptance_read : operation_acceptance_status_code 0x1000 ≡ ok denied
unfolding operation_acceptance_status_code
acceptance_read = refl
