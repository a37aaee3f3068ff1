-- ===== src/Information/Operations.antt =====
-- The operations of lib/arinc_615a/information (Status.cpp, UploadLoadStatus.cpp,
-- DownloadFileStatus.cpp, UploadStatus.cpp, DownloadStatus.cpp) that change state.
pub mod Lookup
pub mod Updates
use mathlib.Core.Option
use arinc_615a_cli_tool_suit.Base.{
  List, Option, [], if◌then◌else◌, length, none, some, str_eq, suc, ℕ, ◌%◌, ◌++◌, ◌+◌, ◌∷◌,
}
use arinc_615a_cli_tool_suit.Files.Ratio.{Ratio}
use arinc_615a_cli_tool_suit.Information.{
  DownloadFileStatus, DownloadStatus, Status, UploadLoadStatus, UploadStatus,
}
use arinc_615a_cli_tool_suit.Status.{StatusCode, invalid_status}

-- `Status::incrementCounter`: a `uint16_t`.
unfoldable pub increment_counter : Status → Status
increment_counter s = record s { counter = (s.counter + 1) % 65536 }

-- `code( ... )` clears the description.
unfoldable pub set_code : StatusCode → Status → Status
set_code code s = record s { code = code; description = [] }

unfoldable pub set_status : StatusCode → List ℕ → Status → Status
set_status code description s = record s { code = code; description = description }

unfoldable pub set_load_code : StatusCode → UploadLoadStatus → UploadLoadStatus
set_load_code code s = record s { code = code; description = [] }

unfoldable pub set_load_status : Ratio → StatusCode → List ℕ → UploadLoadStatus → UploadLoadStatus
set_load_status ratio code description s = record s {
  ratio = ratio;
  code = code;
  description = description;
}

unfoldable pub set_file_code : StatusCode → DownloadFileStatus → DownloadFileStatus
set_file_code code s = record s { code = code; description = [] }

unfoldable pub set_file_status : StatusCode → List ℕ → DownloadFileStatus → DownloadFileStatus
set_file_status code description s = record s { code = code; description = description }

-- The constructors of a new element.
unfoldable pub new_load : List ℕ → List ℕ → UploadLoadStatus
new_load header_filename part_number = record {
  header_filename = header_filename;
  part_number = part_number;
  ratio = record { value = 0 };
  code = invalid_status;
  description = [];
}

unfoldable pub new_file : List ℕ → DownloadFileStatus
new_file filename = record { filename = filename; code = invalid_status; description = [] }

-- `std::ranges::find_if` by a name, and the element that is added where it finds none. A reference to
-- an element is its position.
module _ {ℓ} {A : Type ℓ} (name_of : A → List ℕ) where
  unfoldable pub find_by_name : List ℕ → List A → Option ℕ
  find_by_name name [] = none
  find_by_name name (a ∷ items) =
      if str_eq (name_of a) name then some 0 else Option.map suc (find_by_name name items)

  unfoldable pub find_or_add : A → List A → List A × ℕ
  find_or_add fresh items = elim (find_by_name (name_of fresh) items) [
    | none ↦ (items ++ fresh ∷ [], length items)
    | some position ↦ (items, position)
  ]

-- `UploadStatus::load( headerFilename )`, with the part number left empty in a new load.
unfoldable pub upload_load : List ℕ → UploadStatus → UploadStatus × ℕ
upload_load header_filename s =
    let (loads, position) =
      find_or_add (λ (l : UploadLoadStatus). l.header_filename) (new_load header_filename [])
        s.loads in
    (record s { loads = loads }, position)

-- `UploadStatus::load( headerFilename, partNumber )`.
unfoldable pub add_load : List ℕ → List ℕ → UploadStatus → UploadStatus × ℕ
add_load header_filename part_number s =
    (record s { loads = s.loads ++ new_load header_filename part_number ∷ [] }, length s.loads)

-- `DownloadStatus::file( filename )`.
unfoldable pub download_file : List ℕ → DownloadStatus → DownloadStatus × ℕ
download_file filename s =
    let (files, position) =
      find_or_add (λ (f : DownloadFileStatus). f.filename) (new_file filename) s.files in
    (record s { files = files }, position)
