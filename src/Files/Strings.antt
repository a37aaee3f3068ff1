-- ===== src/Files/Strings.antt =====
-- lib/arinc_615a/files/String.cpp: strings with a length byte and a terminating NUL.
pub mod Wire
pub mod Laws
use arinc_615a_cli_tool_suit.Base.{
  Bool, List, Option, Result, [], err, find, if◌then◌else◌, invalid_start_and_end, is_empty, leb,
  length, ltb, none, not, ok, replicate, require, some, string_length_inconsistent,
  string_not_terminated, string_too_long, suc, take, ℕ, ◌&&◌, ◌++◌, ◌+◌, ◌==◌, ◌>>=◌, ◌||◌, ◌∷◌,
  ◌>>◌,
}
use arinc_615a_cli_tool_suit.RawData.{RawDataOps, u8}

-- `remaining.back() = std::byte{ 0U }`. The span is not empty where the source does this.
unfoldable pub clear_last : List ℕ → List ℕ
clear_last [] = []
clear_last (b ∷ []) = 0 ∷ []
clear_last (b ∷ c ∷ rest) = b ∷ clear_last (c ∷ rest)

-- `rawStringSize`.
abbrev pub raw_string_size : List ℕ → ℕ
raw_string_size string_to_encode =
    if is_empty string_to_encode then 0 else length string_to_encode + 1

-- The guard of `String_encode`.
unfoldable pub is_too_long : List ℕ → ℕ → Bool
is_too_long string_to_encode fixed_length =
    leb 255 (raw_string_size string_to_encode)
    || (not (fixed_length == 0) && ltb fixed_length (raw_string_size string_to_encode))

-- `substr( 0, nullTermPos )` of what stands before the first NUL.
abbrev pub up_to_null : List ℕ → Option ℕ → Result (List ℕ)
up_to_null decoded_string none = err string_not_terminated
up_to_null decoded_string (some null_term_pos) = ok (take null_term_pos decoded_string)

module _ (raw : RawDataOps) where
  -- Length, text and terminating NUL, written over the zeros of `raw_string`.
  unfoldable pub write_string : List ℕ → ℕ → List ℕ → Result (List ℕ)
  write_string raw_string string_length string_to_encode = do
    (length_byte, remaining) ← raw.set_int u8 raw_string string_length
    (text, remaining') ← raw.set_string remaining string_to_encode
    ok (
        length_byte
        ++ (text ++ (if is_empty string_to_encode then remaining' else clear_last remaining')))

  unfoldable pub string_encode : List ℕ → ℕ → Result (List ℕ)
  string_encode string_to_encode fixed_length =
      if is_too_long string_to_encode fixed_length then err string_too_long else do
        let raw_string : List ℕ =
            if fixed_length == 0
            then replicate (suc (raw_string_size string_to_encode)) 0
            else replicate (suc fixed_length) 0
        string_length ←
            if fixed_length == 0
            then raw.safe_cast u8 (raw_string_size string_to_encode)
            else ok fixed_length
        write_string raw_string string_length string_to_encode

  -- The branch `stringLength > 0`.
  unfoldable pub decode_content : List ℕ → ℕ → Result (List ℕ × List ℕ)
  decode_content raw_data string_length = do
    (raw_data', decoded_string) ← raw.get_string raw_data string_length
    text ← up_to_null decoded_string (find 0 decoded_string)
    ok (raw_data', text)

  unfoldable pub string_decode : List ℕ → Result (List ℕ × List ℕ)
  string_decode raw_data = do
    require (not (is_empty raw_data)) invalid_start_and_end
    (raw_data', string_length) ← raw.get_int u8 raw_data
    require (leb string_length (length raw_data')) string_length_inconsistent
    if ltb 0 string_length then decode_content raw_data' string_length else ok (raw_data', [])
