-- ===== src/Tftp/ErrorMessage/Numbers.antt =====
-- Numbers against their digits.
use arinc_615a_cli_tool_suit.Base.{
  Bool-cases, List, Option, [], append-nil, append_assoc, arith, inl, inr, ltb, lt→ltb, none, refl,
  some, suc, zero, ℕ, ◌%◌, ◌*◌, ◌++◌, ◌+◌, ◌/◌, ◌<◌, ◌∷◌, ◌≡◌, ◌≤◌,
}
use arinc_615a_cli_tool_suit.Tftp.ErrorMessage.{
  digit_of, format_decimal, from_chars, in_uint16, scan_digits, value_or_zero,
}

-- A decimal digit is scanned, whatever follows.
scan_digit :
    (d : ℕ) (rest : List ℕ) (value : Option ℕ) (total : ℕ)
    → d < 10
    → value_or_zero value * 10 + d ≡ total
    → scan_digits 10 ((b'0' + d) ∷ rest) value ≡ scan_digits 10 rest (some total)
unfolding scan_digits
scan_digit d rest value total h e =
    let same : digit_of (b'0' + d) ≡ d = ground arith in rw (same, lt→ltb d 10 h, e) refl

-- The digits of a number are scanned to the number.
pub scan_digits-format_decimal :
    (fuel value : ℕ) (rest : List ℕ)
    → value ≤ fuel
    → scan_digits 10 (format_decimal fuel value ++ rest) none ≡ scan_digits 10 rest (some value)
unfolding format_decimal
scan_digits-format_decimal zero value rest h =
    let none_left : value % 10 ≡ value = omega arith in
    rw none_left (scan_digit value rest none value (omega arith) (omega arith))
scan_digits-format_decimal (suc fuel) value rest h = elim (Bool-cases (ltb value 10)) [
  | inl e ↦ rw e (scan_digit value rest none value (ground arith) (omega arith))
  | inr e ↦
      rw
        (
          e,
          append_assoc (format_decimal fuel (value / 10)) ((b'0' + value % 10) ∷ []) rest,
          scan_digits-format_decimal fuel (value / 10) ((b'0' + value % 10) ∷ rest) (ground arith),
        )
        (scan_digit (value % 10) rest (some (value / 10)) value (omega arith) (omega arith))
]

pub from_chars-format_decimal :
    (value : ℕ) → value < 65536 → from_chars 10 (format_decimal value value) ≡ some value
unfolding from_chars scan_digits
from_chars-format_decimal value h =
    let scanned = scan_digits-format_decimal value value [] (omega arith) in
    rw (rw append-nil at scanned) (rw (lt→ltb value 65536 h) refl)

pub from_chars_bound :
    (base : ℕ) (text : List ℕ) (v : ℕ) → from_chars base text ≡ some v → v < 65536
unfolding from_chars
from_chars_bound base text v h = in_uint16_bound (scan_digits base text none) v h
  where
    in_uint16_bound : (o : Option ℕ) (v : ℕ) → in_uint16 o ≡ some v → v < 65536
    in_uint16_bound none v h = cc
    in_uint16_bound (some u) v h = ground arith
