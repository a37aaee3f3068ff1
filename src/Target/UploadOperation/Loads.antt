-- ===== src/Target/UploadOperation/Loads.antt =====
-- lib/arinc_615a/target/implementation/UploadOperationImpl.cpp: the loads of the status.
use arinc_615a_cli_tool_suit.Base.{List, [], if◌then◌else◌, map, ℕ}
use arinc_615a_cli_tool_suit.Files.Ratio.{Ratio}
use arinc_615a_cli_tool_suit.Information.{UploadLoadStatus, UploadStatus}
use arinc_615a_cli_tool_suit.Information.Operations.{add_load, set_load_status, upload_load}
use arinc_615a_cli_tool_suit.Information.Operations.Updates.{update_at}
use arinc_615a_cli_tool_suit.Status.{FinalStatus, operation_accepted, status_code_of_final}
use arinc_615a_cli_tool_suit.Target.Operation.State.{is_part_final, progress_code}

abbrev with_load : (UploadLoadStatus → UploadLoadStatus) → UploadStatus × ℕ → UploadStatus
with_load f (s, position) = record s { loads = update_at position f s.loads }

unfoldable pub load_accepted : List ℕ → List ℕ → UploadStatus → UploadStatus
load_accepted header_filename part_number s =
    with_load (set_load_status (record { value = 0 }) operation_accepted [])
      (add_load header_filename part_number s)

unfoldable pub load_in_progress : List ℕ → Ratio → List ℕ → UploadStatus → UploadStatus
load_in_progress header_filename ratio description s =
    with_load (set_load_status ratio (progress_code description) description)
      (upload_load header_filename s)

unfoldable pub load_finished : List ℕ → FinalStatus → List ℕ → UploadStatus → UploadStatus
load_finished header_filename status description s =
    with_load (λ load. set_load_status load.ratio (status_code_of_final status) description load)
      (upload_load header_filename s)

unfoldable pub finish_load : FinalStatus → List ℕ → UploadLoadStatus → UploadLoadStatus
finish_load status description load =
    if is_part_final load.code
    then load
    else set_load_status load.ratio (status_code_of_final status) description load

unfoldable pub loads_finished : FinalStatus → List ℕ → UploadStatus → UploadStatus
loads_finished status description s = record s {
  loads = map (finish_load status description) s.loads;
}
