-- ===== src/Files/Ratio/Laws.antt =====
-- `Ratio_encode` and `Ratio_decode` against each other.
use arinc_615a_cli_tool_suit.Base.{
  Bool, Codes, Ensures, Ensures-eq-ok, Ensures-ok, Ensures-require, Ensures-step, List, Option, ap,
  append-nil, arith, false, holds_up_to, holds_up_to_sound, leb, length, length-append, le→leb,
  le→ltb, none, ok, refl, replicate, some, true, ℕ, ◌%◌, ◌++◌, ◌+◌, ◌==◌, ◌≡◌, ◌≤◌,
}
use arinc_615a_cli_tool_suit.Files.Ratio.{
  Ratio, format_3, make_ratio, ratio_decode, ratio_encode, ratio_value, stoul,
}
use arinc_615a_cli_tool_suit.RawData.{RawDataLaws, RawDataOps}

abbrev pub IsRatio : Ratio → Type 0
IsRatio r = r.value ≤ 100

abbrev is_value : ℕ → Option ℕ → Bool
is_value v none = false
is_value v (some w) = v == w

read_back_table : holds_up_to (λ v. is_value v (stoul (format_3 v))) 100 ≡ true
unfolding holds_up_to stoul format_3
read_back_table = refl

is_value_sound : (v : ℕ) (o : Option ℕ) → is_value v o ≡ true → o ≡ some v
is_value_sound v none e = cc
is_value_sound v (some w) e = ground arith

stoul-format_3 : (v : ℕ) → v ≤ 100 → stoul (format_3 v) ≡ some v
stoul-format_3 v h =
    is_value_sound v (stoul (format_3 v)) (holds_up_to_sound _ 100 v read_back_table h)

length-format_3 : (v : ℕ) → length (format_3 v) ≡ 3
unfolding format_3
length-format_3 v = ground arith

module _ (raw : RawDataOps) (laws : RawDataLaws raw) where
  ratio_encode_lem : (r : Ratio) → ratio_encode raw r ≡ ok (format_3 r.value)
  unfolding ratio_encode
  ratio_encode_lem r =
      let size = length-format_3 r.value in
      let zeros : List ℕ = replicate 3 0 in
      rw (laws.set_string_lem zeros (format_3 r.value) (omega arith), size) (rw append-nil)

  ratio_decode_lem :
      (r : Ratio) (rest : List ℕ)
      → IsRatio r
      → ratio_decode raw (format_3 r.value ++ rest) ≡ ok (rest, r)
  unfolding ratio_decode make_ratio
  ratio_decode_lem r rest h =
      let v = r.value in
      let size = length-format_3 v in
      let got = rw size at (laws.get_string_lem (format_3 v) rest) in
      let narrow : v % 4294967296 ≡ v = omega arith in
      let long : 3 ≤ length (format_3 v ++ rest) = omega (arith, length-append (format_3 v) rest) in
      rw (
        le→leb 3 (length (format_3 v ++ rest)) long,
        got,
        stoul-format_3 v h,
        narrow,
        le→leb v 100 h,
        le→ltb 100 v h,
      )

  -- A percentage is written as three characters and read back.
  pub ratio_Codes : (r : Ratio) → IsRatio r → Codes (ratio_encode raw) (ratio_decode raw) r
  ratio_Codes r h = record {
    bytes = format_3 r.value;
    writes = ratio_encode_lem r;
    reads = λ rest. ratio_decode_lem r rest h;
  }

  pub ratio_size : (r : Ratio) (h : IsRatio r) → length (ratio_Codes r h).bytes ≡ 3
  unfolding ratio_Codes
  ratio_size r h = length-format_3 r.value

  ratio_decode-Ensures :
      (d : List ℕ)
      → Ensures
          (λ (p : List ℕ × Ratio). IsRatio p.1 × (length d ≡ 3 + length p.0))
          (ratio_decode raw d)
  unfolding ratio_decode make_ratio
  ratio_decode-Ensures d = Ensures-require (leb 3 (length d)) _ λ long.
      Ensures-step (raw.get_string d 3) λ p got. Ensures-step (ratio_value (stoul p.1)) λ v number.
        Ensures-require (leb v 100) _ λ range. Ensures-step (make_ratio v) λ r made.
          let (split, size) = laws.get_string_sound d p.0 p.1 3 got in
          Ensures-ok (ground arith, omega (arith, ap length split, length-append p.1 p.0, size))

  -- A ratio that is decoded, from any bytes, is at most 100 and took three bytes.
  ratio_decode_sound :
      (d rest : List ℕ) (r : Ratio)
      → ratio_decode raw d ≡ ok (rest, r)
      → IsRatio r × (length d ≡ 3 + length rest)
  ratio_decode_sound d rest r e = Ensures-eq-ok (ratio_decode-Ensures d) e

  -- A ratio of at most 100 is encoded in three bytes, and decoded again from these and any that follow.
  ratio_decode-ratio_encode :
      (r : Ratio) (rest : List ℕ)
      → IsRatio r
      → (e : List ℕ) × (ratio_encode raw r ≡ ok e)
        × (length e ≡ 3)
        × (ratio_decode raw (e ++ rest) ≡ ok (rest, r))
  ratio_decode-ratio_encode r rest h =
      (format_3 r.value, ratio_encode_lem r, length-format_3 r.value, ratio_decode_lem r rest h)
