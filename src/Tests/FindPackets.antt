-- ===== src/Tests/FindPackets.antt =====
-- FIND packets at concrete data.
use arinc_615a_cli_tool_suit.Base.{List, [], arith, find, length, ok, refl, ℕ, ◌+◌, ◌∷◌, ◌≡◌}
use arinc_615a_cli_tool_suit.Find.Packet.{
  Packet, information_answer, is_terminated, opcode_of, packet_decode, packet_encode, packet_type,
  parse_parameters,
}
use arinc_615a_cli_tool_suit.Find.Packet.Parsing.{Parsed, parse_parameters-Parsed, terminated}
use arinc_615a_cli_tool_suit.Find.Packet.RoundTrip.{
  IsPacket, packet_decode-packet_encode, packet_decode_sound,
}
use arinc_615a_cli_tool_suit.RawData.BigEndian.{big_endian, big_endian-RawDataLaws}

abbrev answer : Packet
answer = record {
  opcode_v = information_answer;
  parameters_v = (b'H' ∷ b'W' ∷ []) ∷ [] ∷ (b'L' ∷ []) ∷ [];
}

abbrev texts : List (List ℕ)
texts = answer.parameters_v

answer-IsPacket : IsPacket answer
answer-IsPacket = record { known = refl; some_parameter = refl; texts = omega arith }

packet_decode-packet_encode_example :
    (bytes : List ℕ) × (packet_encode big_endian answer ≡ ok bytes)
    × (packet_decode big_endian bytes ≡ ok answer)
    × (packet_type big_endian bytes ≡ ok information_answer)
packet_decode-packet_encode_example =
    packet_decode-packet_encode big_endian big_endian-RawDataLaws answer answer-IsPacket

abbrev answer_bytes : List ℕ
answer_bytes = 0 ∷ 2 ∷ b'H' ∷ b'W' ∷ 0 ∷ 0 ∷ b'L' ∷ 0 ∷ 16 ∷ []

answer_bytes_read : packet_decode big_endian answer_bytes ≡ ok answer
unfolding packet_decode is_terminated opcode_of parse_parameters find
answer_bytes_read = refl

packet_decode_sound_example :
    IsPacket answer × (length answer_bytes ≡ length (terminated answer.parameters_v) + 3)
packet_decode_sound_example =
    packet_decode_sound big_endian big_endian-RawDataLaws answer_bytes answer answer_bytes_read

abbrev open_text : List ℕ
open_text = b'A' ∷ 0 ∷ b'B' ∷ []

-- The second parameter has no terminator.
parse_parameters-Parsed_example : Parsed open_text [] (parse_parameters 3 open_text [])
parse_parameters-Parsed_example = parse_parameters-Parsed 3 open_text [] (omega arith)
