-- ===== src/Files/Ratio.antt =====
-- lib/arinc_615a/information/Ratio.cpp and lib/arinc_615a/files/Ratio.cpp: a percentage, on the wire
-- as three characters. `stoul` and `format_3` are what the sources use of the C++ standard library.
pub mod Laws
use mathlib.Core.Option
use arinc_615a_cli_tool_suit.Base.{
  Bool, List, Option, Result, [], err, if◌then◌else◌, leb, length, ltb, none, ok,
  ratio_not_a_number, ratio_out_of_range, ratio_size_invalid, replicate, require, some, ℕ, ◌%◌,
  ◌&&◌, ◌*◌, ◌++◌, ◌+◌, ◌-◌, ◌/◌, ◌==◌, ◌>>=◌, ◌^◌, ◌||◌, ◌∷◌, ◌>>◌,
}
use arinc_615a_cli_tool_suit.RawData.{RawDataOps}

pub record Ratio : Type 0 where
  pub value : ℕ

-- The constructor `Ratio( unsigned int )`.
unfoldable pub make_ratio : ℕ → Result Ratio
make_ratio value = if ltb 100 value then err ratio_out_of_range else ok (record { value = value })

abbrev pub is_space : ℕ → Bool
is_space c = c == 32 || (leb 9 c && leb c 13)

abbrev pub is_digit : ℕ → Bool
is_digit c = leb 48 c && leb c 57

unfoldable pub skip_spaces : List ℕ → List ℕ
skip_spaces [] = []
skip_spaces (c ∷ text) = let rest = skip_spaces text in if is_space c then rest else c ∷ text

-- The value of the digits in front, with `acc` for the digits before them.
unfoldable pub digits_value : ℕ → List ℕ → ℕ
digits_value acc [] = acc
digits_value acc (c ∷ text) =
    let value = digits_value (acc * 10 + (c - 48)) text in if is_digit c then value else acc

unfoldable pub unsigned_value : List ℕ → Option ℕ
unfolding digits_value
unsigned_value [] = none
unsigned_value (c ∷ text) =
    let value : ℕ = digits_value 0 (c ∷ text) in
    if is_digit c && ltb value (2 ^ 64) then some value else none

unfoldable pub signed_value : List ℕ → Option ℕ
unfolding unsigned_value
signed_value [] = none
signed_value (c ∷ text) =
    if c == b'-'
    then Option.map (λ v. (2 ^ 64 - v) % 2 ^ 64) (unsigned_value text)
    else if c == b'+'
    then unsigned_value text
    else unsigned_value (c ∷ text)

-- `std::stoul`: `none` is the exception. A minus sign wraps.
unfoldable pub stoul : List ℕ → Option ℕ
unfolding skip_spaces signed_value
stoul text = signed_value (skip_spaces text)

abbrev pub digit : ℕ → ℕ
digit n = 48 + n % 10

-- `std::format( "{:3}", value )` for a value below 1000.
unfoldable pub format_3 : ℕ → List ℕ
format_3 value =
    if ltb value 10
    then 32 ∷ 32 ∷ digit value ∷ []
    else if ltb value 100
    then 32 ∷ digit (value / 10) ∷ digit value ∷ []
    else digit (value / 100) ∷ digit (value / 10) ∷ digit value ∷ []

-- The try block of `Ratio_decode`, with its cast to `unsigned int`.
abbrev pub ratio_value : Option ℕ → Result ℕ
ratio_value none = err ratio_not_a_number
ratio_value (some value) = ok (value % 2 ^ 32)

module _ (raw : RawDataOps) where
  unfoldable pub ratio_decode : List ℕ → Result (List ℕ × Ratio)
  ratio_decode raw_data = do
    require (leb 3 (length raw_data)) ratio_size_invalid
    (remaining, ratio_str) ← raw.get_string raw_data 3
    value ← ratio_value (stoul ratio_str)
    require (leb value 100) ratio_out_of_range
    r ← make_ratio value
    ok (remaining, r)

  unfoldable pub ratio_encode : Ratio → Result (List ℕ)
  ratio_encode r = do
    (text, rest) ← raw.set_string (replicate 3 0) (format_3 r.value)
    ok (text ++ rest)
