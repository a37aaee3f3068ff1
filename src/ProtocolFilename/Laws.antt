-- ===== src/ProtocolFilename/Laws.antt =====
-- Protocol filenames against the strings that stand for them.
use arinc_615a_cli_tool_suit.Base.{
  All, Bool-cases, List, [], arith, cut_at, cut_at-find, cut_at_sound, false, find, inl, inr,
  length, length-append, refl, str_eq, str_eq→eq, sym, true, ℕ, ◌<◌, ◌==◌, ◌∙◌, ◌∷◌, ◌≡◌, ◌≢◌,
}
use arinc_615a_cli_tool_suit.ProtocolFilename.{
  ProtocolFileType, ProtocolFilename, extension_of, extension_type_info_index, file_type_of,
  filename_is_valid, filename_of_string, filename_to_string, find_by_extension, invalid_type,
  is_protocol_filename, load_configuration_initialization, split_filename, type_value,
}
use arinc_615a_cli_tool_suit.TargetId.{
  TargetId, is_target_id, target_id_is_valid, target_id_of_string, target_id_to_string,
}
use arinc_615a_cli_tool_suit.TargetId.Laws.{
  target_id_of_string-to_string, target_id_to_string-ne, target_id_to_string-of_string,
}

-- Every type but the marker has an extension of its own.
pub file_type_of-extension_of : (t : ProtocolFileType) → file_type_of (extension_of t) ≡ t
unfolding file_type_of extension_of str_eq
file_type_of-extension_of load_configuration_initialization = refl
file_type_of-extension_of _ = refl

-- An extension that is known is the extension of its type.
index_sound :
    (s : List ℕ) (index : List (List ℕ × ProtocolFileType))
    → All (λ p. extension_of p.1 ≡ p.0) index
    → find_by_extension s index ≢ invalid_type
    → extension_of (find_by_extension s index) ≡ s
unfolding find_by_extension
index_sound s [] h n = absurd (n refl)
index_sound s ((e, u) ∷ index) h n = elim (Bool-cases (str_eq e s)) [
  | inl hit ↦ rw hit (h.0 ∙ str_eq→eq e s hit)
  | inr miss ↦ rw miss (index_sound s index h.1 (rw miss at n))
]

index_extensions : All (λ p. extension_of p.1 ≡ p.0) extension_type_info_index
unfolding extension_of
index_extensions = (
  refl,
  (refl, (refl, (refl, (refl, (refl, (refl, (refl, (refl, (refl, (refl, (refl, tt))))))))))),
)

pub extension_of-file_type_of :
    (s : List ℕ) → file_type_of s ≢ invalid_type → extension_of (file_type_of s) ≡ s
extension_of-file_type_of s n =
    unfold file_type_of in (index_sound s extension_type_info_index index_extensions n)

invalid_test : (t : ProtocolFileType) → (type_value t == 12) ≡ false → t ≢ invalid_type
invalid_test t h e = ground arith

-- A valid filename is read back from its string, which is recognised as a protocol filename.
pub filename_of_string-to_string :
    (file : ProtocolFilename)
    → filename_is_valid file ≡ true
    → (filename_of_string (filename_to_string file) ≡ file)
      × (is_protocol_filename (filename_to_string file) ≡ true)
unfolding filename_of_string filename_to_string filename_is_valid is_protocol_filename
    split_filename
filename_of_string-to_string file h =
    let id_valid : target_id_is_valid file.target_id ≡ true = ground arith in
    let no_dot = target_id_to_string-ne file.target_id b'.' id_valid refl (omega arith) in
    let parts =
      cut_at-find b'.' (target_id_to_string file.target_id) (extension_of file.file_type) no_dot in
    let (same, known) = target_id_of_string-to_string file.target_id id_valid in
    let type_same = file_type_of-extension_of file.file_type in
    (rw (parts, same, type_same), rw (parts, known, type_same) (ground arith))

id_full : (id : TargetId) → 0 < length (target_id_to_string id)
unfolding target_id_to_string
id_full id = omega (arith, length-append id.thw_id (b'_' ∷ id.position))

-- A string that is recognised is the string of a valid filename.
filename_to_string-of_string :
    (s : List ℕ)
    → is_protocol_filename s ≡ true
    → (filename_to_string (filename_of_string s) ≡ s)
      × (filename_is_valid (filename_of_string s) ≡ true)
unfolding filename_of_string filename_to_string filename_is_valid is_protocol_filename
    split_filename
filename_to_string-of_string s h =
    let parts = cut_at s (find b'.' s) in
    let id_known : is_target_id parts.0 ≡ true = ground arith in
    let type_known : file_type_of parts.1 ≢ invalid_type =
      invalid_test (file_type_of parts.1) (ground arith) in
    let (same, valid) = target_id_to_string-of_string parts.0 id_known in
    let full : 0 < length parts.0 = rw same at (id_full (target_id_of_string parts.0)) in
    (
      rw (same, extension_of-file_type_of parts.1 type_known)
          (sym (cut_at_sound b'.' s (find b'.' s) refl full)),
      rw valid (ground arith),
    )
