-- ===== src/RawData.antt =====
-- The functions of the helper library (helper/RawData.hpp, helper/SafeCast.hpp) through which the
-- sources read and write buffers. The library is not in the repository: its functions are a
-- parameter, and what the sources rely on is the record `RawDataLaws`.
pub mod BigEndian
use arinc_615a_cli_tool_suit.Base.{List, Result, drop, length, ok, ℕ, ◌++◌, ◌+◌, ◌<◌, ◌≡◌, ◌≤◌}

-- The integer types of the protocol. A signed value stands by its two's complement pattern.
pub data Width : Type 0 where
  u8 u16 u32 : Width

abbrev pub size_of : Width → ℕ
size_of u8 = 1
size_of u16 = 2
size_of u32 = 4

abbrev pub modulus : Width → ℕ
modulus u8 = 256
modulus u16 = 65536
modulus u32 = 4294967296

-- `RawData_setInt` and `RawData_setString` write at the front of a span and return the rest of it:
-- here the bytes written and the rest. `int_bytes` names what is written for an integer.
pub record RawDataOps : Type 0 where
  pub int_bytes : Width → ℕ → List ℕ
  pub set_int : Width → List ℕ → ℕ → Result (List ℕ × List ℕ)
  pub get_int : Width → List ℕ → Result (List ℕ × ℕ)
  pub set_string : List ℕ → List ℕ → Result (List ℕ × List ℕ)
  pub get_string : List ℕ → ℕ → Result (List ℕ × List ℕ)
  pub safe_cast : Width → ℕ → Result ℕ

pub record RawDataLaws (ops : RawDataOps) : Type 0 where
  pub length-int_bytes : (w : Width) (v : ℕ) → length (ops.int_bytes w v) ≡ size_of w
  -- A span that is long enough takes the integer.
  pub set_int_lem :
      (w : Width) (span : List ℕ) (v : ℕ)
      → size_of w ≤ length span
      → ops.set_int w span v ≡ ok (ops.int_bytes w v, drop (size_of w) span)
  -- What was written is read back.
  pub get_int_lem :
      (w : Width) (v : ℕ) (rest : List ℕ)
      → v < modulus w
      → ops.get_int w (ops.int_bytes w v ++ rest) ≡ ok (rest, v)
  -- A read that succeeds takes the bytes of the integer, which is in the range of its type.
  pub get_int_sound :
      (w : Width) (span rest : List ℕ) (v : ℕ)
      → ops.get_int w span ≡ ok (rest, v)
      → (length span ≡ size_of w + length rest) × (v < modulus w)
  -- A span that is long enough gives an integer.
  pub get_int_long :
      (w : Width) (span : List ℕ)
      → size_of w ≤ length span
      → (rest : List ℕ) × (v : ℕ) × (ops.get_int w span ≡ ok (rest, v))
  pub set_string_lem :
      (span text : List ℕ)
      → length text ≤ length span
      → ops.set_string span text ≡ ok (text, drop (length text) span)
  pub get_string_lem :
      (text rest : List ℕ) → ops.get_string (text ++ rest) (length text) ≡ ok (rest, text)
  pub get_string_long :
      (span : List ℕ) (n : ℕ)
      → n ≤ length span
      → (rest text : List ℕ) × (ops.get_string span n ≡ ok (rest, text))
  pub get_string_sound :
      (span rest text : List ℕ) (n : ℕ)
      → ops.get_string span n ≡ ok (rest, text)
      → (span ≡ text ++ rest) × (length text ≡ n)
  pub safe_cast_lem : (w : Width) (v : ℕ) → v < modulus w → ops.safe_cast w v ≡ ok v
