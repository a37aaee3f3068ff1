-- ===== src/Tests/Names.antt =====
-- Target identifications and protocol filenames at concrete data.
use arinc_615a_cli_tool_suit.Base.{List, [], find, refl, str_eq, true, ℕ, ◌++◌, ◌∷◌, ◌≡◌}
use arinc_615a_cli_tool_suit.ProtocolFilename.{
  ProtocolFilename, extension_type_info_index, file_type_of, filename_is_valid, filename_of_string,
  filename_to_string, find_by_extension, is_protocol_filename, split_filename, upload_request,
}
use arinc_615a_cli_tool_suit.ProtocolFilename.Laws.{filename_of_string-to_string}
use arinc_615a_cli_tool_suit.TargetId.{
  TargetId, all_alnum, is_compliant, is_position, is_target_id, is_thw_id, split_target_id,
  target_id_is_valid,
}

abbrev id : TargetId
id = record { thw_id = b'H' ∷ b'N' ∷ b'P' ∷ b'F' ∷ []; position = b'L' ∷ [] }

abbrev id_text : List ℕ
id_text = b'H' ∷ b'N' ∷ b'P' ∷ b'F' ∷ b'_' ∷ b'L' ∷ []

id_valid : target_id_is_valid id ≡ true
unfolding target_id_is_valid is_thw_id is_position is_compliant all_alnum
id_valid = refl

id_text_known : is_target_id id_text ≡ true
unfolding is_target_id split_target_id find is_thw_id is_position is_compliant all_alnum
id_text_known = refl

abbrev filename : ProtocolFilename
filename = record { target_id = id; file_type = upload_request }

filename_valid : filename_is_valid filename ≡ true
unfolding filename_is_valid target_id_is_valid is_thw_id is_position is_compliant all_alnum
filename_valid = refl

filename_of_string-to_string_example :
    (filename_of_string (filename_to_string filename) ≡ filename)
    × (is_protocol_filename (filename_to_string filename) ≡ true)
filename_of_string-to_string_example = filename_of_string-to_string filename filename_valid

abbrev filename_text : List ℕ
filename_text = id_text ++ b'.' ∷ b'L' ∷ b'U' ∷ b'R' ∷ []

filename_text_known : is_protocol_filename filename_text ≡ true
unfolding is_protocol_filename split_filename file_type_of find_by_extension
    extension_type_info_index str_eq is_target_id split_target_id find is_thw_id is_position
    is_compliant all_alnum
filename_text_known = refl
