-- ===== src/TargetId/Laws.antt =====
-- Target identifications against the strings that stand for them.
use arinc_615a_cli_tool_suit.Base.{
  All, All-append, List, [], arith, cut_at, cut_at-find, cut_at_sound, false, find, length, refl,
  sym, true, ℕ, ◌<◌, ◌∷◌, ◌≡◌, ◌≢◌, ◌≤◌,
}
use arinc_615a_cli_tool_suit.TargetId.{
  TargetId, all_alnum, is_alnum, is_compliant, is_position, is_target_id, is_thw_id,
  position_size_max, position_size_min, split_target_id, target_id_is_valid, target_id_of_string,
  target_id_to_string, thw_id_size_max, thw_id_size_min,
}

alnum-ne : (c x : ℕ) → is_alnum x ≡ true → is_alnum c ≡ false → x ≢ c
alnum-ne c x h k = ground arith

pub all_alnum-ne :
    (c : ℕ) (s : List ℕ) → is_alnum c ≡ false → all_alnum s ≡ true → All (λ x. x ≢ c) s
unfolding all_alnum
all_alnum-ne c [] k h = tt
all_alnum-ne c (x ∷ s) k h = (ground (arith, alnum-ne c x), all_alnum-ne c s k (ground arith))

pub compliant_alnum :
    (s : List ℕ) (lo hi : ℕ)
    → is_compliant s lo hi ≡ true
    → (all_alnum s ≡ true) × (lo ≤ length s) × (length s ≤ hi)
unfolding is_compliant
compliant_alnum s lo hi h = ground arith

valid_parts :
    (id : TargetId)
    → target_id_is_valid id ≡ true
    → (all_alnum id.thw_id ≡ true) × (all_alnum id.position ≡ true) × (0 < length id.thw_id)
unfolding target_id_is_valid is_thw_id is_position
valid_parts id h = ground (
  arith,
  compliant_alnum id.thw_id thw_id_size_min thw_id_size_max,
  compliant_alnum id.position position_size_min position_size_max,
)

pub target_id_to_string-ne :
    (id : TargetId) (c : ℕ)
    → target_id_is_valid id ≡ true
    → is_alnum c ≡ false
    → c ≢ b'_'
    → All (λ x. x ≢ c) (target_id_to_string id)
unfolding target_id_to_string
target_id_to_string-ne id c h k n =
    let (a, b, full) = valid_parts id h in
    All-append (λ x. x ≢ c) id.thw_id (b'_' ∷ id.position) (all_alnum-ne c id.thw_id k a)
      ((λ e. n (sym e)), all_alnum-ne c id.position k b)

-- A valid identification is read back from its string, which is recognised as one.
pub target_id_of_string-to_string :
    (id : TargetId)
    → target_id_is_valid id ≡ true
    → (target_id_of_string (target_id_to_string id) ≡ id)
      × (is_target_id (target_id_to_string id) ≡ true)
unfolding target_id_of_string is_target_id split_target_id target_id_to_string target_id_is_valid
target_id_of_string-to_string id h =
    let (a, b, full) = valid_parts id h in
    let parts = cut_at-find b'_' id.thw_id id.position (all_alnum-ne b'_' id.thw_id refl a) in
    (rw parts, rw parts h)

-- A string that is recognised is the string of a valid identification.
pub target_id_to_string-of_string :
    (s : List ℕ)
    → is_target_id s ≡ true
    → (target_id_to_string (target_id_of_string s) ≡ s)
      × (target_id_is_valid (target_id_of_string s) ≡ true)
unfolding target_id_of_string is_target_id split_target_id target_id_to_string target_id_is_valid
target_id_to_string-of_string s h =
    let (a, b, full) =
      valid_parts
        (record { thw_id = (cut_at s (find b'_' s)).0; position = (cut_at s (find b'_' s)).1 }) h in
    (sym (cut_at_sound b'_' s (find b'_' s) refl full), h)
