-- ===== src/Find/Packet/RoundTrip.antt =====
-- Encoding and decoding of FIND packets against each other.
use arinc_615a_cli_tool_suit.Base.{
  All, Ensures, Ensures-eq-ok, Ensures-ok, Ensures-require, Ensures-step, List, [], ap, append-nil,
  append_assoc, arith, false, is_empty, leb, length, length-append, length-take, le→ltb, ltb, not,
  ok, refl, replicate, take, take-append, true, ℕ, ◌++◌, ◌+◌, ◌-◌, ◌<◌, ◌∷◌, ◌≡◌,
}
use arinc_615a_cli_tool_suit.Files.Strings.Wire.{IsText}
use arinc_615a_cli_tool_suit.Find.Packet.{
  Opcode, Packet, information_answer, information_request, is_known, is_terminated, opcode_invalid,
  opcode_of, opcode_value, packet_decode, packet_encode, packet_terminator, packet_type,
  parse_parameters,
}
use arinc_615a_cli_tool_suit.Find.Packet.Parsing.{
  Parsed-ok, append_parameters-terminated, parse_parameters-Parsed, parse_parameters-terminated,
  terminated,
}
use arinc_615a_cli_tool_suit.RawData.{RawDataLaws, RawDataOps, u16}

opcode_of-opcode_value : (o : Opcode) → opcode_of (opcode_value o) ≡ o
unfolding opcode_of
opcode_of-opcode_value information_request = refl
opcode_of-opcode_value information_answer = refl
opcode_of-opcode_value opcode_invalid = refl

opcode_value_bound : (o : Opcode) → opcode_value o < 65536
opcode_value_bound information_request = omega arith
opcode_value_bound information_answer = omega arith
opcode_value_bound opcode_invalid = omega arith

is_terminated-append : (xs : List ℕ) → is_terminated (xs ++ packet_terminator ∷ []) ≡ true
unfolding is_terminated
is_terminated-append [] = refl
is_terminated-append (x ∷ []) = refl
is_terminated-append (x ∷ y ∷ xs) = is_terminated-append (y ∷ xs)

take-append_last : (xs : List ℕ) (b : ℕ) → take (length (xs ++ b ∷ []) - 1) (xs ++ b ∷ []) ≡ xs
take-append_last xs b =
    let size : length (xs ++ b ∷ []) - 1 ≡ length xs = omega (arith, length-append xs (b ∷ [])) in
    rw size (take-append xs (b ∷ []))

-- A packet that the other side accepts.
pub record IsPacket (packet : Packet) : Type 0 where
  pub known : is_known packet.opcode_v ≡ true
  pub some_parameter : is_empty packet.parameters_v ≡ false
  pub texts : All IsText packet.parameters_v

module _ (raw : RawDataOps) (laws : RawDataLaws raw) where
  abbrev pub packet_wire : Packet → List ℕ
  packet_wire packet =
      (raw.int_bytes u16 (opcode_value packet.opcode_v) ++ terminated packet.parameters_v)
      ++ packet_terminator ∷ []

  packet_encode_lem : (packet : Packet) → packet_encode raw packet ≡ ok (packet_wire packet)
  unfolding packet_encode
  packet_encode_lem packet =
      rw
        (
          laws.set_int_lem u16 (replicate 2 0) (opcode_value packet.opcode_v) (omega arith),
          append_parameters-terminated,
          append-nil,
        )
        refl

  length-packet_wire :
      (packet : Packet) → length (packet_wire packet) ≡ length (terminated packet.parameters_v) + 3
  length-packet_wire packet = omega (
    arith,
    laws.length-int_bytes u16 (opcode_value packet.opcode_v),
    length-append (raw.int_bytes u16 (opcode_value packet.opcode_v))
        (terminated packet.parameters_v),
    length-append
        (raw.int_bytes u16 (opcode_value packet.opcode_v) ++ terminated packet.parameters_v)
        (packet_terminator ∷ []),
  )

  packet_type_lem : (packet : Packet) → packet_type raw (packet_wire packet) ≡ ok packet.opcode_v
  unfolding packet_type
  packet_type_lem packet =
      let opcode_bytes = raw.int_bytes u16 (opcode_value packet.opcode_v) in
      let long : ltb (length (packet_wire packet)) 2 ≡ false =
        le→ltb (length (packet_wire packet)) 2 (omega (arith, length-packet_wire packet)) in
      rw
        (
          long,
          append_assoc opcode_bytes (terminated packet.parameters_v) (packet_terminator ∷ []),
          laws.get_int_lem u16 (opcode_value packet.opcode_v) _
              (opcode_value_bound packet.opcode_v),
          opcode_of-opcode_value,
        )
        refl

  packet_decode_lem :
      (packet : Packet) → IsPacket packet → packet_decode raw (packet_wire packet) ≡ ok packet
  unfolding packet_decode
  packet_decode_lem packet h =
      let text = terminated packet.parameters_v in
      let long : leb (length (packet_wire packet)) 2 ≡ false =
        ground (arith, length-packet_wire packet) in
      let got : raw.get_string text (length text) ≡ ok ([], text) =
        rw append-nil at (laws.get_string_lem text []) in
      rw
        (
          long,
          is_terminated-append (raw.int_bytes u16 (opcode_value packet.opcode_v) ++ text),
          take-append_last (raw.int_bytes u16 (opcode_value packet.opcode_v) ++ text)
              packet_terminator,
          laws.get_int_lem u16 (opcode_value packet.opcode_v) text
              (opcode_value_bound packet.opcode_v),
          opcode_of-opcode_value packet.opcode_v,
          h.known,
          got,
          parse_parameters-terminated (length text) packet.parameters_v [] h.texts (omega arith),
          h.some_parameter,
        )
        refl

  -- A packet whose opcode is known, with a parameter and no NUL in a parameter, is encoded, the bytes
  -- are decoded to the packet, and its type is recognised.
  pub packet_decode-packet_encode :
      (packet : Packet)
      → IsPacket packet
      → (bytes : List ℕ) × (packet_encode raw packet ≡ ok bytes)
        × (packet_decode raw bytes ≡ ok packet)
        × (packet_type raw bytes ≡ ok packet.opcode_v)
  packet_decode-packet_encode packet h = (
    packet_wire packet,
    packet_encode_lem packet,
    packet_decode_lem packet h,
    packet_type_lem packet,
  )

  packet_decode-Ensures :
      (raw_packet : List ℕ)
      → Ensures
          (λ packet.
            IsPacket packet × (length raw_packet ≡ length (terminated packet.parameters_v) + 3))
          (packet_decode raw raw_packet)
  unfolding packet_decode
  packet_decode-Ensures raw_packet = Ensures-require (not (leb (length raw_packet) 2)) _ λ long.
      Ensures-require (is_terminated raw_packet) _ λ closed.
        let body = take (length raw_packet - 1) raw_packet in
        Ensures-step (raw.get_int u16 body) λ p got.
          Ensures-require (is_known (opcode_of p.1)) _ λ known.
            Ensures-step (raw.get_string p.0 (length p.0)) λ q text.
              Ensures-step (parse_parameters (length q.1) q.1 []) λ parameters parsed.
                Ensures-require (not (is_empty parameters)) _ λ full.
                  let (split, size) = laws.get_string_sound p.0 q.0 q.1 (length p.0) text in
                  let (same, texts) =
                    Parsed-ok q.1 _ parameters
                      (parse_parameters-Parsed (length q.1) q.1 [] (omega arith)) parsed in
                  Ensures-ok (
                    record { known = known; some_parameter = ground arith; texts = texts },
                    omega (
                      arith,
                      length-take (length raw_packet - 1) raw_packet (omega arith),
                      (laws.get_int_sound u16 body p.0 p.1 got).0,
                      size,
                      ap length same,
                    ),
                  )

  -- A packet that is decoded, from any bytes, has a known opcode, a parameter, and no NUL in a
  -- parameter, and the bytes are as many as its terminated parameters and three more.
  pub packet_decode_sound :
      (raw_packet : List ℕ) (packet : Packet)
      → packet_decode raw raw_packet ≡ ok packet
      → IsPacket packet × (length raw_packet ≡ length (terminated packet.parameters_v) + 3)
  packet_decode_sound raw_packet packet e = Ensures-eq-ok (packet_decode-Ensures raw_packet) e
