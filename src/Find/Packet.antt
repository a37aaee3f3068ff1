-- ===== src/Find/Packet.antt =====
-- lib/arinc_615a/find/packets/Packet.cpp: the FIND packets, an opcode and a list of parameters.
pub mod Parsing
pub mod RoundTrip
pub mod Parameters
use arinc_615a_cli_tool_suit.Base.{
  Bool, List, Result, [], drop, err, false, find, helper_error, if◌then◌else◌, invalid_opcode,
  is_empty, leb, length, ltb, no_parameter, none, not, ok, out_of_range, packet_not_terminated,
  packet_too_small, replicate, require, some, suc, take, terminator_missing, true, zero, ℕ, ◌++◌,
  ◌-◌, ◌==◌, ◌>>=◌, ◌∷◌, ◌>>◌,
}
use arinc_615a_cli_tool_suit.RawData.{RawDataOps, u16}

-- Packets.hpp.
pub data Opcode : Type 0 where
  information_request information_answer opcode_invalid : Opcode

abbrev pub opcode_value : Opcode → ℕ
opcode_value information_request = 1
opcode_value information_answer = 2
opcode_value opcode_invalid = 65535

abbrev pub packet_terminator : ℕ
packet_terminator = 16

abbrev pub string_terminator : ℕ
string_terminator = 0

pub record Packet : Type 0 where
  pub opcode_v : Opcode
  pub parameters_v : List (List ℕ)

-- The cases of the two switches on an opcode that was read.
unfoldable pub opcode_of : ℕ → Opcode
opcode_of opcode =
    if opcode == 1
    then information_request
    else if opcode == 2
    then information_answer
    else opcode_invalid

abbrev pub is_known : Opcode → Bool
is_known opcode_invalid = false
is_known _ = true

-- `rawPacket.back() != PacketTerminator`, negated. The source has checked that there is a byte.
unfoldable pub is_terminated : List ℕ → Bool
is_terminated [] = false
is_terminated (b ∷ []) = b == packet_terminator
is_terminated (b ∷ c ∷ rest) = is_terminated (c ∷ rest)

-- The constructor with a number of empty parameters.
unfoldable pub empty_packet : Opcode → ℕ → Packet
empty_packet opcode number_of_parameters = record {
  opcode_v = opcode;
  parameters_v = replicate number_of_parameters [];
}

-- `parametersV.at( position )`, read and written.
unfoldable pub parameter_at : List (List ℕ) → ℕ → Result (List ℕ)
parameter_at [] position = err out_of_range
parameter_at (p ∷ parameters) zero = ok p
parameter_at (p ∷ parameters) (suc position) = parameter_at parameters position

unfoldable pub assign_at : List (List ℕ) → ℕ → List ℕ → Result (List (List ℕ))
assign_at [] position parameter = err out_of_range
assign_at (p ∷ parameters) zero parameter = ok (parameter ∷ parameters)
assign_at (p ∷ parameters) (suc position) parameter = do
  parameters' ← assign_at parameters position parameter
  ok (p ∷ parameters')

unfoldable pub get_parameter : Packet → ℕ → Result (List ℕ)
get_parameter packet position = parameter_at packet.parameters_v position

unfoldable pub set_parameter : Packet → ℕ → List ℕ → Result Packet
set_parameter packet position parameter = do
  parameters ← assign_at packet.parameters_v position parameter
  ok (record { opcode_v = packet.opcode_v; parameters_v = parameters })

-- The loop that decodes the parameters. The fuel is the length of the text at first, and a pass takes
-- one character at least.
unfoldable pub parse_parameters : ℕ → List ℕ → List (List ℕ) → Result (List (List ℕ))
parse_parameters fuel [] parameters = ok parameters
parse_parameters zero (c ∷ text) parameters = err helper_error
parse_parameters (suc fuel) (c ∷ text) parameters = elim (find string_terminator (c ∷ text)) [
  | none ↦ err terminator_missing
  | some parameter_end ↦
      parse_parameters fuel (drop (suc parameter_end) (c ∷ text))
        (parameters ++ take parameter_end (c ∷ text) ∷ [])
]

-- The loop that adds the parameters to the packet.
unfoldable pub append_parameters : List (List ℕ) → List ℕ → List ℕ
append_parameters [] raw_packet = raw_packet
append_parameters (parameter ∷ parameters) raw_packet =
    append_parameters parameters ((raw_packet ++ parameter) ++ string_terminator ∷ [])

module _ (raw : RawDataOps) where
  unfoldable pub packet_type : List ℕ → Result Opcode
  packet_type raw_packet =
      if ltb (length raw_packet) 2
      then ok opcode_invalid
      else do (_, opcode) ← raw.get_int u16 raw_packet; ok (opcode_of opcode)

  -- The constructor from a raw packet.
  unfoldable pub packet_decode : List ℕ → Result Packet
  packet_decode raw_packet = do
    require (not (leb (length raw_packet) 2)) packet_too_small
    require (is_terminated raw_packet) packet_not_terminated
    (remaining_data, int_opcode) ← raw.get_int u16 (take (length raw_packet - 1) raw_packet)
    require (is_known (opcode_of int_opcode)) invalid_opcode
    (_, parameters_string) ← raw.get_string remaining_data (length remaining_data)
    parameters ← parse_parameters (length parameters_string) parameters_string []
    require (not (is_empty parameters)) no_parameter
    ok (record { opcode_v = opcode_of int_opcode; parameters_v = parameters })

  unfoldable pub packet_encode : Packet → Result (List ℕ)
  packet_encode packet = do
    (opcode, remaining) ← raw.set_int u16 (replicate 2 0) (opcode_value packet.opcode_v)
    ok (append_parameters packet.parameters_v (opcode ++ remaining) ++ packet_terminator ∷ [])
