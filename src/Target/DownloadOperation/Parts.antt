-- ===== src/Target/DownloadOperation/Parts.antt =====
-- lib/arinc_615a/target/implementation/MediaDefinedDownloadOperationImpl.cpp: the files of the status.
use arinc_615a_cli_tool_suit.Base.{List, [], if◌then◌else◌, length, map, ℕ, ◌++◌, ◌∷◌}
use arinc_615a_cli_tool_suit.Information.{DownloadFileStatus, DownloadStatus}
use arinc_615a_cli_tool_suit.Information.Operations.{download_file, new_file, set_file_status}
use arinc_615a_cli_tool_suit.Information.Operations.Updates.{update_at}
use arinc_615a_cli_tool_suit.Status.{FinalStatus, operation_accepted, status_code_of_final}
use arinc_615a_cli_tool_suit.Target.Operation.State.{is_part_final, progress_code}

abbrev with_file : (DownloadFileStatus → DownloadFileStatus) → DownloadStatus × ℕ → DownloadStatus
with_file f (s, position) = record s { files = update_at position f s.files }

-- The overload of `file` for a `std::string` adds a file, also where there is one with the name.
unfoldable pub add_file : List ℕ → DownloadStatus → DownloadStatus × ℕ
add_file filename s = (record s { files = s.files ++ new_file filename ∷ [] }, length s.files)

unfoldable pub file_accepted : List ℕ → DownloadStatus → DownloadStatus
file_accepted filename s = with_file (set_file_status operation_accepted []) (add_file filename s)

unfoldable pub file_in_progress : List ℕ → List ℕ → DownloadStatus → DownloadStatus
file_in_progress filename description s =
    with_file (set_file_status (progress_code description) description) (download_file filename s)

unfoldable pub file_finished : List ℕ → FinalStatus → List ℕ → DownloadStatus → DownloadStatus
file_finished filename status description s =
    with_file (set_file_status (status_code_of_final status) description) (download_file filename s)

unfoldable pub finish_file : FinalStatus → List ℕ → DownloadFileStatus → DownloadFileStatus
finish_file status description file =
    if is_part_final file.code
    then file
    else set_file_status (status_code_of_final status) description file

unfoldable pub files_finished : FinalStatus → List ℕ → DownloadStatus → DownloadStatus
files_finished status description s = record s {
  files = map (finish_file status description) s.files;
}
