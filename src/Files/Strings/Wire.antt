-- ===== src/Files/Strings/Wire.antt =====
-- Encoded strings: what stands on the wire, and when a string is encoded.
use arinc_615a_cli_tool_suit.Base.{
  All, Bool-cases, List, [], ap, arith, drop-replicate, err, false, if◌then◌else◌, inl, inr, length,
  length-replicate, ok, refl, replicate, string_too_long, suc, true, zero, ℕ, ◌++◌, ◌-◌, ◌<◌, ◌==◌,
  ◌∷◌, ◌≡◌, ◌≢◌, ◌≤◌, ◌⊎◌,
}
use arinc_615a_cli_tool_suit.Files.Strings.{
  clear_last, is_too_long, raw_string_size, string_encode, write_string,
}
use arinc_615a_cli_tool_suit.RawData.{RawDataLaws, RawDataOps, u8}

clear_last-replicate : (n : ℕ) → clear_last (replicate n 0) ≡ replicate n 0
unfolding clear_last
clear_last-replicate zero = refl
clear_last-replicate (suc zero) = refl
clear_last-replicate (suc (suc n)) = ap (◌∷◌ 0) (clear_last-replicate (suc n))

-- The bytes that an encoded string takes behind its length byte.
abbrev pub wire_length : List ℕ → ℕ → ℕ
wire_length s fixed_length = if fixed_length == 0 then raw_string_size s else fixed_length

abbrev pub IsText : List ℕ → Type 0
IsText s = All (λ c. c ≢ 0) s

pub fits : (s : List ℕ) (f : ℕ) → is_too_long s f ≡ false → raw_string_size s < 255
unfolding is_too_long
fits [] f h = omega arith
fits (c ∷ s) f h = ground arith

pub text_fits : (s : List ℕ) (f : ℕ) → is_too_long s f ≡ false → (f ≡ 0) ⊎ (length s < f)
unfolding is_too_long
text_fits [] f h = grind arith
text_fits (c ∷ s) f h = ground arith

pub room : (s : List ℕ) (f : ℕ) → is_too_long s f ≡ false → length s ≤ wire_length s f
unfolding is_too_long
room [] f h = omega arith
room (c ∷ s) f h = ground arith

module _ (raw : RawDataOps) where
  -- What stands on the wire: the length, the text, and zeros up to the length.
  abbrev pub string_wire : List ℕ → ℕ → List ℕ
  string_wire s fixed_length =
      raw.int_bytes u8 (wire_length s fixed_length)
      ++ (s ++ replicate (wire_length s fixed_length - length s) 0)

module _ (raw : RawDataOps) (laws : RawDataLaws raw) where
  write_string_lem :
      (n : ℕ) (s : List ℕ)
      → length s ≤ n
      → write_string raw (replicate (suc n) 0) n s
        ≡ ok (raw.int_bytes u8 n ++ (s ++ replicate (n - length s) 0))
  unfolding write_string
  write_string_lem n s h =
      rw
        (
          laws.set_int_lem u8 (replicate (suc n) 0) n (omega arith),
          laws.set_string_lem (replicate n 0) s (omega (arith, length-replicate {A = ℕ} n 0)),
          drop-replicate {A = ℕ} (length s) n 0,
        )
        (ground (arith, clear_last-replicate (n - length s)))

  -- Encoding succeeds on what is not too long, and writes the format on the wire.
  pub string_encode_wire :
      (s : List ℕ) (f : ℕ)
      → is_too_long s f ≡ false
      → string_encode raw s f ≡ ok (string_wire raw s f)
  unfolding string_encode
  string_encode_wire s f h =
      let small : raw_string_size s < 256 = omega (arith, fits s f h) in
      elim (Bool-cases (f == 0)) [
        | inl e ↦
            rw (h, e, laws.safe_cast_lem u8 (raw_string_size s) small)
              (write_string_lem (raw_string_size s) s (rw e at (room s f h)))
        | inr e ↦ rw (h, e) (write_string_lem f s (rw e at (room s f h)))
      ]

  -- Encoding fails exactly on what is too long.
  pub string_encode_too_long :
      (s : List ℕ) (f : ℕ) → is_too_long s f ≡ true → string_encode raw s f ≡ err string_too_long
  unfolding string_encode
  string_encode_too_long s f h = rw h
