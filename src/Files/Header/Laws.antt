-- ===== src/Files/Header/Laws.antt =====
-- `insertHeader` and `decodeHeader` against each other.
use arinc_615a_cli_tool_suit.Base.{
  ==_iff, ==_refl, Ensures, Ensures-eq-ok, Ensures-if, Ensures-ok, Ensures-require, Ensures-step,
  List, arith, leb, length, length-append, le→leb, ok, promise, refl, replicate, ℕ, ◌%◌, ◌++◌, ◌+◌,
  ◌<◌, ◌==◌, ◌^◌, ◌∷◌, ◌≡◌,
}
use arinc_615a_cli_tool_suit.Files.Header.{
  decode_header, header_size, insert_header, protocol_version,
}
use arinc_615a_cli_tool_suit.RawData.{RawDataLaws, RawDataOps, u16, u32}
use arinc_615a_cli_tool_suit.Status.{
  Arinc615aVersion, arinc_615a_1, arinc_615a_2, arinc_615a_34, version_value,
}

-- The versions that `decodeHeader` supports.
abbrev pub IsSupported : Arinc615aVersion → Type 0
IsSupported arinc_615a_1 = ⊥
IsSupported _ = Unit {0}

protocol_version_lem :
    (v : Arinc615aVersion) → IsSupported v → protocol_version (version_value v) ≡ ok v
unfolding protocol_version
protocol_version_lem arinc_615a_1 h = absurd h
protocol_version_lem _ h = refl

pub protocol_version_sound : (n : ℕ) → Ensures IsSupported (protocol_version n)
unfolding protocol_version
protocol_version_sound n =
    Ensures-if (n == 0x4133) (λ e. Ensures-ok tt)
      (λ e. Ensures-if (n == 0x4134) (λ e'. Ensures-ok tt) (λ e'. promise (λ b f. cc)))

module _ (raw : RawDataOps) where
  -- A protocol file on the wire: size, version, body.
  abbrev pub frame : Arinc615aVersion → List ℕ → List ℕ
  frame version body =
      raw.int_bytes u32 (header_size + length body)
      ++ (raw.int_bytes u16 (version_value version) ++ body)

module _ (raw : RawDataOps) (laws : RawDataLaws raw) where
  pub length-frame :
      (v : Arinc615aVersion) (body : List ℕ) → length (frame raw v body) ≡ header_size + length body
  length-frame v body = omega (
    arith,
    length-append (raw.int_bytes u32 (header_size + length body))
        (raw.int_bytes u16 (version_value v) ++ body),
    length-append (raw.int_bytes u16 (version_value v)) body,
    laws.length-int_bytes u32 (header_size + length body),
    laws.length-int_bytes u16 (version_value v),
  )

  -- Over a buffer whose first six bytes were left free, `insertHeader` completes the frame.
  pub insert_header_lem :
      (v : Arinc615aVersion) (body : List ℕ)
      → header_size + length body < 2 ^ 32
      → insert_header raw v (replicate header_size 0 ++ body) ≡ ok (frame raw v body)
  unfolding insert_header
  insert_header_lem v body small =
      let whole : List ℕ = replicate header_size 0 ++ body in
      let size : length whole % 2 ^ 32 ≡ header_size + length body = omega arith in
      rw (
        size,
        laws.set_int_lem u32 whole (header_size + length body) (omega arith),
        laws.set_int_lem u16 (0 ∷ 0 ∷ body) (version_value v) (omega arith),
      )

  -- A file of any size: the size field wraps.
  pub insert_header_total :
      (v : Arinc615aVersion) (body : List ℕ)
      → insert_header raw v (replicate header_size 0 ++ body)
        ≡ ok (
            raw.int_bytes u32 ((header_size + length body) % 2 ^ 32)
            ++ (raw.int_bytes u16 (version_value v) ++ body))
  unfolding insert_header
  insert_header_total v body =
      let whole : List ℕ = replicate header_size 0 ++ body in
      let size : length whole ≡ header_size + length body = omega arith in
      rw
        (
          laws.set_int_lem u32 whole (length whole % 2 ^ 32) (omega arith),
          laws.set_int_lem u16 (0 ∷ 0 ∷ body) (version_value v) (omega arith),
        )
        (rw size)

  -- A frame with a supported version is taken apart into version and body.
  pub decode_header_lem :
      (v : Arinc615aVersion) (body : List ℕ)
      → IsSupported v
      → header_size + length body < 2 ^ 32
      → decode_header raw (frame raw v body) ≡ ok (body, v)
  unfolding decode_header
  decode_header_lem v body s small =
      let n : ℕ = header_size + length body in
      let whole : List ℕ = frame raw v body in
      let size = length-frame v body in
      let version_bound : (w : Arinc615aVersion) → version_value w < 65536 = elim [
        | arinc_615a_1 ↦ omega arith
        | arinc_615a_2 ↦ omega arith
        | arinc_615a_34 ↦ omega arith
      ] in
      rw (
        size,
        laws.get_int_lem u32 n (raw.int_bytes u16 (version_value v) ++ body) small,
        le→leb 6 n (omega arith),
        ==_refl n,
        laws.get_int_lem u16 (version_value v) body (version_bound v),
        protocol_version_lem v s,
      )

  decode_header-Ensures :
      (d : List ℕ)
      → Ensures
          (λ (p : List ℕ × Arinc615aVersion).
            IsSupported p.1 × (length d ≡ header_size + length p.0) × (length d < 2 ^ 32))
          (decode_header raw d)
  unfolding decode_header
  decode_header-Ensures d = Ensures-require (leb header_size (length d)) _ λ long.
      Ensures-step (raw.get_int u32 d) λ p got. Ensures-require (p.1 == length d) _ λ same.
        Ensures-step (raw.get_int u16 p.0) λ q got'. Ensures-step (protocol_version q.1) λ v known.
          let (size, small) = laws.get_int_sound u32 d p.0 p.1 got in
          let (size', small') = laws.get_int_sound u16 p.0 q.0 q.1 got' in
          let equal = (==_iff p.1 (length d)).0 same in
          Ensures-ok (Ensures-eq-ok (protocol_version_sound q.1) known, omega arith, omega arith)

  -- A header that is accepted, in front of any bytes, has a supported version, stands before all but
  -- six of the bytes, and these are fewer than 2 ^ 32.
  pub decode_header_sound :
      (d rest : List ℕ) (v : Arinc615aVersion)
      → decode_header raw d ≡ ok (rest, v)
      → IsSupported v × (length d ≡ header_size + length rest) × (length d < 2 ^ 32)
  decode_header_sound d rest v e = Ensures-eq-ok (decode_header-Ensures d) e
