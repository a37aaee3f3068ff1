-- ===== src/ProtocolFilename.antt =====
-- lib/arinc_615a/files/ProtocolFilename.cpp: the names of the protocol files,
-- `<THW ID>_<position>.<extension>`.
pub mod Laws
use arinc_615a_cli_tool_suit.Base.{
  Bool, List, [], cut_at, find, if◌then◌else◌, not, str_eq, ℕ, ◌&&◌, ◌++◌, ◌==◌, ◌∷◌,
}
use arinc_615a_cli_tool_suit.TargetId.{
  TargetId, is_target_id, target_id_is_valid, target_id_of_string, target_id_to_string,
}

-- Files.hpp.
pub data ProtocolFileType : Type 0 where
  load_configuration_initialization load_configuration_list load_configuration_status :
      ProtocolFileType
  upload_initialization upload_request upload_status : ProtocolFileType
  media_defined_download_initialization media_defined_download_request : ProtocolFileType
  operator_defined_download_initialization operator_defined_download_list : ProtocolFileType
  operator_defined_download_answer download_status invalid_type : ProtocolFileType

-- The value of the enumerator.
abbrev pub type_value : ProtocolFileType → ℕ
type_value load_configuration_initialization = 0
type_value load_configuration_list = 1
type_value load_configuration_status = 2
type_value upload_initialization = 3
type_value upload_request = 4
type_value upload_status = 5
type_value media_defined_download_initialization = 6
type_value media_defined_download_request = 7
type_value operator_defined_download_initialization = 8
type_value operator_defined_download_list = 9
type_value operator_defined_download_answer = 10
type_value download_status = 11
type_value invalid_type = 12

abbrev three : ℕ → ℕ → ℕ → List ℕ
three a b c = a ∷ b ∷ c ∷ []

-- `extensionTypeInfoIndex`.
unfoldable pub extension_type_info_index : List (List ℕ × ProtocolFileType)
extension_type_info_index =
    (three b'L' b'C' b'I', load_configuration_initialization)
    ∷ (three b'L' b'C' b'L', load_configuration_list)
    ∷ (three b'L' b'C' b'S', load_configuration_status)
    ∷ (three b'L' b'U' b'I', upload_initialization)
    ∷ (three b'L' b'U' b'R', upload_request)
    ∷ (three b'L' b'U' b'S', upload_status)
    ∷ (three b'L' b'N' b'D', media_defined_download_initialization)
    ∷ (three b'L' b'N' b'R', media_defined_download_request)
    ∷ (three b'L' b'N' b'O', operator_defined_download_initialization)
    ∷ (three b'L' b'N' b'L', operator_defined_download_list)
    ∷ (three b'L' b'N' b'A', operator_defined_download_answer)
    ∷ (three b'L' b'N' b'S', download_status)
    ∷ []

-- The lookups of the index by either of its keys.
unfoldable pub find_by_type : ProtocolFileType → List (List ℕ × ProtocolFileType) → List ℕ
find_by_type t [] = []
find_by_type t ((e, u) ∷ index) = if type_value u == type_value t then e else find_by_type t index

unfoldable pub find_by_extension : List ℕ → List (List ℕ × ProtocolFileType) → ProtocolFileType
find_by_extension extension [] = invalid_type
find_by_extension extension ((e, u) ∷ index) =
    if str_eq e extension then u else find_by_extension extension index

unfoldable pub extension_of : ProtocolFileType → List ℕ
unfolding find_by_type extension_type_info_index
extension_of t = find_by_type t extension_type_info_index

unfoldable pub file_type_of : List ℕ → ProtocolFileType
unfolding find_by_extension extension_type_info_index
file_type_of extension = find_by_extension extension extension_type_info_index

pub record ProtocolFilename : Type 0 where
  pub target_id : TargetId
  pub file_type : ProtocolFileType

unfoldable pub split_filename : List ℕ → List ℕ × List ℕ
split_filename filename = cut_at filename (find b'.' filename)

unfoldable pub is_protocol_filename : List ℕ → Bool
is_protocol_filename filename =
    let parts = split_filename filename in
    is_target_id parts.0 && not (type_value (file_type_of parts.1) == type_value invalid_type)

-- The constructor from one string.
unfoldable pub filename_of_string : List ℕ → ProtocolFilename
filename_of_string filename =
    let parts = split_filename filename in
    record { target_id = target_id_of_string parts.0; file_type = file_type_of parts.1 }

-- `operator std::string`.
unfoldable pub filename_to_string : ProtocolFilename → List ℕ
filename_to_string file = target_id_to_string file.target_id ++ b'.' ∷ extension_of file.file_type

-- `operator bool`.
unfoldable pub filename_is_valid : ProtocolFilename → Bool
filename_is_valid file =
    target_id_is_valid file.target_id && not (type_value invalid_type == type_value file.file_type)
