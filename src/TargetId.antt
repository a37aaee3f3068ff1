-- ===== src/TargetId.antt =====
-- lib/arinc_615a/TargetId.cpp: a target identification, `<THW ID>_<position>`.
pub mod Laws
use arinc_615a_cli_tool_suit.Base.{
  Bool, List, [], cut_at, false, find, if◌then◌else◌, leb, length, ltb, str_eq, true, ℕ, ◌&&◌, ◌++◌,
  ◌||◌, ◌∷◌,
}

-- A character with its code; `_` is the separator.
pub record TargetId : Type 0 where
  pub thw_id : List ℕ
  pub position : List ℕ

-- The limits of TargetId.hpp.
abbrev pub thw_id_size_min : ℕ
thw_id_size_min = 4

abbrev pub thw_id_size_max : ℕ
thw_id_size_max = 15

abbrev pub position_size_min : ℕ
position_size_min = 0

abbrev pub position_size_max : ℕ
position_size_max = 8

-- `std::isalnum` in the classic locale.
abbrev pub is_alnum : ℕ → Bool
is_alnum c = (leb 48 c && leb c 57) || (leb 65 c && leb c 90) || (leb 97 c && leb c 122)

-- `std::ranges::all_of`.
unfoldable pub all_alnum : List ℕ → Bool
all_alnum [] = true
all_alnum (c ∷ text) = is_alnum c && all_alnum text

unfoldable pub is_compliant : List ℕ → ℕ → ℕ → Bool
is_compliant string_to_check min_length max_length =
    if ltb (length string_to_check) min_length || ltb max_length (length string_to_check)
    then false
    else all_alnum string_to_check

unfoldable pub is_thw_id : List ℕ → Bool
is_thw_id thw_id = is_compliant thw_id thw_id_size_min thw_id_size_max

unfoldable pub is_position : List ℕ → Bool
is_position position = is_compliant position position_size_min position_size_max

unfoldable pub split_target_id : List ℕ → List ℕ × List ℕ
split_target_id target_id = cut_at target_id (find b'_' target_id)

unfoldable pub is_target_id : List ℕ → Bool
is_target_id target_id =
    let parts = split_target_id target_id in is_thw_id parts.0 && is_position parts.1

-- The constructor from one string, and `operator=`.
unfoldable pub target_id_of_string : List ℕ → TargetId
target_id_of_string target_id =
    let parts = split_target_id target_id in record { thw_id = parts.0; position = parts.1 }

unfoldable pub target_id_to_string : TargetId → List ℕ
target_id_to_string id = id.thw_id ++ b'_' ∷ id.position

-- `operator bool`.
unfoldable pub target_id_is_valid : TargetId → Bool
target_id_is_valid id = is_thw_id id.thw_id && is_position id.position

-- `operator==` with a string.
unfoldable pub target_id_equals : TargetId → List ℕ → Bool
target_id_equals id other = str_eq (target_id_to_string id) other
