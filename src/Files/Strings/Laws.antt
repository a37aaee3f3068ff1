-- ===== src/Files/Strings/Laws.antt =====
-- Decoded strings: the round trip of the string functions, and what holds of every text that is
-- decoded.
use arinc_615a_cli_tool_suit.Base.{
  Bool-cases, Codes, Ensures, Ensures-eq-ok, Ensures-if, Ensures-map, Ensures-ok, Ensures-require,
  Ensures-step, List, Option, [], ap, append_assoc, arith, false, find, find_first, find_sound, inl,
  inr, is_empty, leb, length, length-append, length-replicate, length-take, le→leb, ltb, none, not,
  ok, ok_injective, refl, replicate, some, suc, take, take-append, zero, ℕ, ◌++◌, ◌+◌, ◌-◌, ◌<◌,
  ◌∙◌, ◌∷◌, ◌≡◌, ◌≤◌, ◌⊎◌,
}
use arinc_615a_cli_tool_suit.Files.Items.{ItemCodec}
use arinc_615a_cli_tool_suit.Files.Strings.{
  decode_content, is_too_long, string_decode, string_encode, up_to_null,
}
use arinc_615a_cli_tool_suit.Files.Strings.Wire.{
  IsText, fits, room, string_encode_wire, string_wire, text_fits, wire_length,
}
use arinc_615a_cli_tool_suit.RawData.{RawDataLaws, RawDataOps, u8}

module _ (raw : RawDataOps) (laws : RawDataLaws raw) where
  find-replicate :
      (s : List ℕ) (n : ℕ) → 0 < n → IsText s → find 0 (s ++ replicate n 0) ≡ some (length s)
  find-replicate s zero h t = absurd (omega arith)
  find-replicate s (suc n) h t = find_first 0 s (replicate n 0) t

  decode_content_lem :
      (s rest : List ℕ) (n : ℕ)
      → IsText s
      → length s < n
      → decode_content raw ((s ++ replicate (n - length s) 0) ++ rest) n ≡ ok (rest, s)
  unfolding decode_content
  decode_content_lem s rest n t h =
      let size : length (s ++ replicate (n - length s) 0) ≡ n = omega (
        arith,
        length-append s (replicate (n - length s) 0),
        length-replicate {A = ℕ} (n - length s) 0,
      ) in
      let got = laws.get_string_lem (s ++ replicate (n - length s) 0) rest in
      let found = find-replicate s (n - length s) (omega arith) t in
      rw (rw size at got) (rw found (rw (take-append s (replicate (n - length s) 0))))

  empty_of_zero : (s : List ℕ) (f : ℕ) → wire_length s f ≡ 0 → is_too_long s f ≡ false → s ≡ []
  empty_of_zero [] f h k = refl
  empty_of_zero (c ∷ s) f h k = absurd (omega (arith, room (c ∷ s) f k))

  short_of_text :
      (s : List ℕ) (f : ℕ)
      → (f ≡ 0) ⊎ (length s < f)
      → 0 < wire_length s f
      → length s < wire_length s f
  short_of_text [] f k h = h
  short_of_text (c ∷ s) f k h = ground arith

  wire_not_empty :
      (s : List ℕ) (f : ℕ) (rest : List ℕ) → is_empty (string_wire raw s f ++ rest) ≡ false
  wire_not_empty s f rest =
      nonempty (raw.int_bytes u8 (wire_length s f)) (laws.length-int_bytes u8 (wire_length s f))
    where
      nonempty :
          (b : List ℕ)
          → length b ≡ 1
          → is_empty ((b ++ (s ++ replicate (wire_length s f - length s) 0)) ++ rest) ≡ false
      nonempty [] h = absurd (omega arith)
      nonempty (x ∷ b) h = refl

  no_body :
      (s : List ℕ) (m : ℕ) (rest : List ℕ) → s ≡ [] → m ≡ 0 → (s ++ replicate m 0) ++ rest ≡ rest
  no_body [] zero rest e h = refl
  no_body [] (suc m) rest e h = absurd (omega arith)
  no_body (c ∷ s) m rest e h = cc

  -- Decoding what stands on the wire gives the text back, and leaves what follows it.
  pub string_decode_wire :
      (s : List ℕ) (f : ℕ) (rest : List ℕ)
      → IsText s
      → is_too_long s f ≡ false
      → f < 256
      → string_decode raw (string_wire raw s f ++ rest) ≡ ok (rest, s)
  unfolding string_decode
  string_decode_wire s f rest t h fb =
      let k : (f ≡ 0) ⊎ (length s < f) = text_fits s f h in
      let n : ℕ = wire_length s f in
      let small : n < 256 = ground (arith, fits s f h) in
      let body : List ℕ = s ++ replicate (n - length s) 0 in
      let size : n ≤ length (body ++ rest) = omega (
        arith,
        length-append body rest,
        length-append s (replicate (n - length s) 0),
        length-replicate {A = ℕ} (n - length s) 0,
        room s f h,
      ) in
      let got : raw.get_int u8 (string_wire raw s f ++ rest) ≡ ok (body ++ rest, n) =
        ap (raw.get_int u8) (append_assoc (raw.int_bytes u8 n) body rest)
        ∙ laws.get_int_lem u8 n (body ++ rest) small in
      rw (wire_not_empty s f rest, got, le→leb n (length (body ++ rest)) size)
        (elim (Bool-cases (ltb 0 n)) [
          | inl e ↦ rw e (decode_content_lem s rest n t (short_of_text s f k (ground arith)))
          | inr e ↦
              let zero_length : n ≡ 0 = ground arith in
              let nothing : s ≡ [] = empty_of_zero s f zero_length h in
              rw e (cc (nothing, no_body s (n - length s) rest nothing (omega arith)))
        ])

  -- With no fixed length the string functions are inverse on every text of at most 253 characters.
  pub string_Codes :
      (s : List ℕ)
      → IsText s
      → length s ≤ 253
      → Codes (λ t. string_encode raw t 0) (string_decode raw) s
  unfolding is_too_long
  string_Codes s t h = record {
    bytes = string_wire raw s 0;
    writes = string_encode_wire raw laws s 0 (short_enough s h);
    reads = λ rest. string_decode_wire s 0 rest t (short_enough s h) (omega arith);
  }
    where
      short_enough : (s : List ℕ) → length s ≤ 253 → is_too_long s 0 ≡ false
      short_enough [] h = refl
      short_enough (c ∷ s) h = ground arith

  -- A text without NUL that is not too long is encoded, with a fixed length below 256 or with none
  -- (0), and it is decoded again from these bytes and any that follow, which are left.
  pub string_decode-string_encode :
      (s : List ℕ) (f : ℕ) (rest : List ℕ)
      → IsText s
      → is_too_long s f ≡ false
      → f < 256
      → (e : List ℕ) × (string_encode raw s f ≡ ok e)
        × (string_decode raw (e ++ rest) ≡ ok (rest, s))
  string_decode-string_encode s f rest t h fb =
      (string_wire raw s f, string_encode_wire raw laws s f h, string_decode_wire s f rest t h fb)

  up_to_null_sound :
      (d : List ℕ) (o : Option ℕ) (s : List ℕ)
      → find 0 d ≡ o
      → up_to_null d o ≡ ok s
      → IsText s × (length s < length d)
  up_to_null_sound d none s e h = cc
  up_to_null_sound d (some n) s e h =
      let (text, split, short) = find_sound 0 d n e in
      let same : take n d ≡ s = ok_injective h in
      rw (← same) (text, rw (length-take n d (omega arith)) short)

  decode_content_sound :
      (d : List ℕ) (n : ℕ)
      → Ensures
          (λ (p : List ℕ × List ℕ). IsText p.1 × (length p.1 < n) × (length d ≡ n + length p.0))
          (decode_content raw d n)
  unfolding decode_content
  decode_content_sound d n = Ensures-step (raw.get_string d n) λ p got.
      Ensures-step (up_to_null p.1 (find 0 p.1)) λ s cut.
        let (split, size) = laws.get_string_sound d p.0 p.1 n got in
        let (text, short) = up_to_null_sound p.1 (find 0 p.1) s refl cut in
        Ensures-ok (text, omega arith, omega (arith, ap length split, length-append p.1 p.0))

  string_decode-Ensures :
      (d : List ℕ)
      → Ensures
          (λ (p : List ℕ × List ℕ). IsText p.1 × (length p.1 ≤ 254) × (length p.0 < length d))
          (string_decode raw d)
  unfolding string_decode
  string_decode-Ensures d = Ensures-require (not (is_empty d)) _ λ full.
      Ensures-step (raw.get_int u8 d) λ p got. Ensures-require (leb p.1 (length p.0)) _ λ long.
        let (size, small) = laws.get_int_sound u8 d p.0 p.1 got in
        Ensures-if (ltb 0 p.1)
          (λ e.
            Ensures-map (decode_content_sound p.0 p.1)
              (λ q (t, s, l). (t, omega arith, omega arith)))
          (λ e. Ensures-ok (tt, omega arith, omega arith))

  -- A text that is decoded, from any bytes, holds no NUL and is at most 254 characters long, and what
  -- is left is shorter than what there was.
  pub string_decode_sound :
      (d rest text : List ℕ)
      → string_decode raw d ≡ ok (rest, text)
      → IsText text × (length text ≤ 254) × (length rest < length d)
  string_decode_sound d rest text e = Ensures-eq-ok (string_decode-Ensures d) e

  -- An encoded text takes 1 to 255 bytes.
  pub string_bounds :
      (s : List ℕ) (t : IsText s) (h : length s ≤ 253)
      → (1 ≤ length (string_Codes s t h).bytes) × (length (string_Codes s t h).bytes ≤ 255)
  unfolding string_Codes
  string_bounds s t h = omega (
    arith,
    length-append (raw.int_bytes u8 (wire_length s 0))
        (s ++ replicate (wire_length s 0 - length s) 0),
    length-append s (replicate (wire_length s 0 - length s) 0),
    length-replicate {A = ℕ} (wire_length s 0 - length s) 0,
    laws.length-int_bytes u8 (wire_length s 0),
    wire_length_le s,
  )
    where
      wire_length_le : (s : List ℕ) → wire_length s 0 ≤ length s + 1
      wire_length_le [] = omega arith
      wire_length_le (c ∷ s) = omega arith

-- The texts that are read back as they were written.
pub record IsPlain (s : List ℕ) : Type 0 where
  pub text : IsText s
  pub short : length s ≤ 253

module _ (raw : RawDataOps) (laws : RawDataLaws raw) where
  -- Plain texts as a kind of item.
  unfoldable pub text_codec : ItemCodec (List ℕ)
  text_codec = record {
    encode_item = λ s. string_encode raw s 0;
    decode_item = string_decode raw;
    IsItem = IsPlain;
    max_size = 255;
    codes = λ s h. string_Codes raw laws s h.text h.short;
    size = λ s h. (string_bounds raw laws s h.text h.short).1;
  }
