-- ===== src/RawData/BigEndian.antt =====
-- A concrete instance of the parameter, in network byte order: the laws can be met.
-- An element of a buffer counts modulo 256.
use arinc_615a_cli_tool_suit.Base.{
  List, Result, [], arith, drop, drop-append, err, helper_error, if◌then◌else◌, leb, length,
  length-append, length-take, le→leb, ltb, lt→ltb, ok, refl, take, take-append, take-append-drop, ℕ,
  ◌%◌, ◌*◌, ◌++◌, ◌+◌, ◌/◌, ◌<◌, ◌^◌, ◌∷◌, ◌≡◌, ◌≤◌,
}
use arinc_615a_cli_tool_suit.RawData.{
  RawDataLaws, RawDataOps, Width, modulus, size_of, u16, u32, u8,
}

abbrev pub byte_at : ℕ → ℕ → ℕ
byte_at k v = v / 256 ^ k % 256

abbrev pub int_bytes_be : Width → ℕ → List ℕ
int_bytes_be u8 v = v % 256 ∷ []
int_bytes_be u16 v = byte_at 1 v ∷ v % 256 ∷ []
int_bytes_be u32 v = byte_at 3 v ∷ byte_at 2 v ∷ byte_at 1 v ∷ v % 256 ∷ []

abbrev pub get_int_be : Width → List ℕ → Result (List ℕ × ℕ)
get_int_be u8 (a ∷ rest) = ok (rest, a % 256)
get_int_be u16 (a ∷ b ∷ rest) = ok (rest, a % 256 * 256 + b % 256)
get_int_be u32 (a ∷ b ∷ c ∷ d ∷ rest) =
    ok (rest, a % 256 * 256 ^ 3 + b % 256 * 256 ^ 2 + c % 256 * 256 + d % 256)
get_int_be _ _ = err helper_error

abbrev pub get_string_be : List ℕ → ℕ → Result (List ℕ × List ℕ)
get_string_be span n =
    if leb n (length span) then ok (drop n span, take n span) else err helper_error

abbrev pub big_endian : RawDataOps
big_endian = record {
  int_bytes = int_bytes_be;
  set_int = λ w span v.
      if leb (size_of w) (length span)
      then ok (int_bytes_be w v, drop (size_of w) span)
      else err helper_error;
  get_int = get_int_be;
  set_string = λ span text.
      if leb (length text) (length span)
      then ok (text, drop (length text) span)
      else err helper_error;
  get_string = get_string_be;
  safe_cast = λ w v. if ltb v (modulus w) then ok v else err helper_error;
}

length-int_bytes_be : (w : Width) (v : ℕ) → length (int_bytes_be w v) ≡ size_of w
length-int_bytes_be u8 v = refl
length-int_bytes_be u16 v = refl
length-int_bytes_be u32 v = refl

get_int_be_lem :
    (w : Width) (v : ℕ) (rest : List ℕ)
    → v < modulus w
    → get_int_be w (int_bytes_be w v ++ rest) ≡ ok (rest, v)
get_int_be_lem u8 v rest h = let e : v % 256 % 256 ≡ v = omega arith in rw e
get_int_be_lem u16 v rest h =
    let e : byte_at 1 v % 256 * 256 + v % 256 % 256 ≡ v = omega arith in rw e
get_int_be_lem u32 v rest h =
    let e : byte_at 3 v % 256 * 256 ^ 3
          + byte_at 2 v % 256 * 256 ^ 2
          + byte_at 1 v % 256 * 256
          + v % 256 % 256
        ≡ v =
      omega arith in
    rw e

get_int_be_sound :
    (w : Width) (span rest : List ℕ) (v : ℕ)
    → get_int_be w span ≡ ok (rest, v)
    → (length span ≡ size_of w + length rest) × (v < modulus w)
get_int_be_sound u8 [] rest v h = cc
get_int_be_sound u8 (a ∷ r) rest v h = ground arith
get_int_be_sound u16 [] rest v h = cc
get_int_be_sound u16 (a ∷ []) rest v h = cc
get_int_be_sound u16 (a ∷ b ∷ r) rest v h = ground arith
get_int_be_sound u32 [] rest v h = cc
get_int_be_sound u32 (a ∷ []) rest v h = cc
get_int_be_sound u32 (a ∷ b ∷ []) rest v h = cc
get_int_be_sound u32 (a ∷ b ∷ c ∷ []) rest v h = cc
get_int_be_sound u32 (a ∷ b ∷ c ∷ d ∷ r) rest v h = ground arith

get_int_be_long :
    (w : Width) (span : List ℕ)
    → size_of w ≤ length span
    → (rest : List ℕ) × (v : ℕ) × (get_int_be w span ≡ ok (rest, v))
get_int_be_long u8 [] h = absurd (omega arith)
get_int_be_long u8 (a ∷ r) h = (_, _, refl)
get_int_be_long u16 [] h = absurd (omega arith)
get_int_be_long u16 (a ∷ []) h = absurd (omega arith)
get_int_be_long u16 (a ∷ b ∷ r) h = (_, _, refl)
get_int_be_long u32 [] h = absurd (omega arith)
get_int_be_long u32 (a ∷ []) h = absurd (omega arith)
get_int_be_long u32 (a ∷ b ∷ []) h = absurd (omega arith)
get_int_be_long u32 (a ∷ b ∷ c ∷ []) h = absurd (omega arith)
get_int_be_long u32 (a ∷ b ∷ c ∷ d ∷ r) h = (_, _, refl)

get_string_be_lem :
    (text rest : List ℕ) → get_string_be (text ++ rest) (length text) ≡ ok (rest, text)
get_string_be_lem text rest =
    rw (le→leb (length text) (length (text ++ rest)) (omega (arith, length-append text rest)))
      (rw (drop-append text rest, take-append text rest))

get_string_be_sound :
    (span rest text : List ℕ) (n : ℕ)
    → get_string_be span n ≡ ok (rest, text)
    → (span ≡ text ++ rest) × (length text ≡ n)
get_string_be_sound span rest text n h = ground (arith, take-append-drop n span, length-take n span)

pub big_endian-RawDataLaws : RawDataLaws big_endian
big_endian-RawDataLaws = record {
  length-int_bytes = length-int_bytes_be;
  set_int_lem = λ w span v h. rw (le→leb (size_of w) (length span) h);
  get_int_lem = get_int_be_lem;
  get_int_sound = get_int_be_sound;
  get_int_long = get_int_be_long;
  set_string_lem = λ span text h. rw (le→leb (length text) (length span) h);
  get_string_lem = get_string_be_lem;
  get_string_sound = get_string_be_sound;
  get_string_long = λ span n h. (drop n span, take n span, rw (le→leb n (length span) h) refl);
  safe_cast_lem = λ w v h. rw (lt→ltb v (modulus w) h);
}
