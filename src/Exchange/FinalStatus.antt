-- ===== src/Exchange/FinalStatus.antt =====
-- The end of an upload on both sides.
use arinc_615a_cli_tool_suit.Base.{List, [], refl, run_events, ℕ, ◌∷◌, ◌≡◌}
use arinc_615a_cli_tool_suit.Exchange.UploadStatus.{IsListening, deliver_all, deliver_eq}
use arinc_615a_cli_tool_suit.Files.Strings.Laws.{IsPlain}
use arinc_615a_cli_tool_suit.Host.Operation.{
  HostOperation, finished, finishes, given, receives_status, reports_upload_status, stops_server,
}
use arinc_615a_cli_tool_suit.Host.UploadOperation.{UploadOperation, handle_upload_status}
use arinc_615a_cli_tool_suit.Information.{Status}
use arinc_615a_cli_tool_suit.Information.Operations.{set_status}
use arinc_615a_cli_tool_suit.RawData.{RawDataLaws, RawDataOps}
use arinc_615a_cli_tool_suit.Status.{
  FinalStatus, StatusCode, final_aborted_by_dlp, final_aborted_by_operator,
  final_aborted_by_target_hardware, final_completed, final_load_part_number_or_download_file_failed,
  final_status, operation_aborted_by_dlp, operation_aborted_by_operator,
  operation_aborted_by_target_hw, operation_completed, status_code_of_final,
}
use arinc_615a_cli_tool_suit.Target.Machine.{Carry-one}
use arinc_615a_cli_tool_suit.Target.Operation.{TargetOperation, finalise, reports_end, reports_sent}
use arinc_615a_cli_tool_suit.Target.Operation.Progress.{status_files}
use arinc_615a_cli_tool_suit.Target.Operation.State.{
  force_acceptance, set_target_status, status_transmitted, transmission_completed,
}
use arinc_615a_cli_tool_suit.Target.UploadOperation.{
  TargetUpload, upload_finished, upload_status_file_completed, upload_timer_handler,
}
use arinc_615a_cli_tool_suit.Target.UploadOperation.Preservation.{timer_step}
use arinc_615a_cli_tool_suit.Target.UploadOperation.Ready.{IsReadyUpload}
use arinc_615a_cli_tool_suit.Target.UploadOperation.Steps.{
  IsStatusFile, current_status, finished_step,
}
use arinc_615a_cli_tool_suit.Tftp.{successful}
use arinc_615a_cli_tool_suit.Tftp.ClientOperation.{expired}

-- What the user of the host is told of a final status, and with what the target ends. A load or a file
-- that failed is no code of its own for an operation: both sides are told that the target hardware
-- aborted.
abbrev pub code_at_host : FinalStatus → StatusCode
code_at_host final_completed = operation_completed
code_at_host final_aborted_by_dlp = operation_aborted_by_dlp
code_at_host final_aborted_by_operator = operation_aborted_by_operator
code_at_host final_aborted_by_target_hardware = operation_aborted_by_target_hw
code_at_host final_load_part_number_or_download_file_failed = operation_aborted_by_target_hw

abbrev pub end_at_target : FinalStatus → FinalStatus
end_at_target final_load_part_number_or_download_file_failed = final_aborted_by_target_hardware
end_at_target final = final

final_at_host :
    (f : FinalStatus) (d : List ℕ) (s : Status) (h : HostOperation)
    → handle_upload_status (force_acceptance (set_target_status (status_code_of_final f) d 0 s)) h
      ≡ finished (code_at_host f) (given d) h
unfolding handle_upload_status force_acceptance set_target_status set_status status_code_of_final
final_at_host final_completed d s h = refl
final_at_host final_aborted_by_dlp d s h = refl
final_at_host final_aborted_by_operator d s h = refl
final_at_host final_aborted_by_target_hardware d s h = refl
final_at_host final_load_part_number_or_download_file_failed d s h = refl

final_at_target :
    (f : FinalStatus) (d : List ℕ) (s : Status) (t : TargetOperation)
    → status_transmitted (force_acceptance (set_target_status (status_code_of_final f) d 0 s)) t
      ≡ finalise (end_at_target f) d t
unfolding status_transmitted force_acceptance set_target_status set_status status_code_of_final
    final_status
final_at_target final_completed d s t = refl
final_at_target final_aborted_by_dlp d s t = refl
final_at_target final_aborted_by_operator d s t = refl
final_at_target final_aborted_by_target_hardware d s t = refl
final_at_target final_load_part_number_or_download_file_failed d s t = refl

module _ (raw : RawDataOps) where
  -- A user of the target that finishes an upload reaches the user of the host: the next status file
  -- that the timer sends makes the host report the status and finish with the code of the final status
  -- and the description, and when the file is sent the target ends with that final status too. Only for
  -- a load that failed both are told, in place of it, that the target hardware aborted. The description
  -- is plain, the status of the target can be sent, the host has no abort pending, and it receives no
  -- other status file.
  pub final_status_reaches_host :
      (laws : RawDataLaws raw) (final : FinalStatus) (description : List ℕ) (t : TargetUpload)
      (h : UploadOperation)
      → IsPlain description
      → IsReadyUpload 2 t
      → IsListening h
      → let t' = upload_finished final description t in
        let sent = upload_timer_handler raw expired t' in
        ((deliver_all raw (status_files sent.1) h).1
          ≡ receives_status
            ∷ reports_upload_status (current_status t')
            ∷ finishes (code_at_host final) (given description)
            ∷ stops_server
            ∷ [])
        × ((upload_status_file_completed (current_status t') successful sent.0).1
            ≡ reports_sent (current_status t').status
              ∷ reports_end (end_at_target final) description
              ∷ [])
  unfolding run_events upload_status_file_completed transmission_completed upload_finished finished
      finalise
  final_status_reaches_host laws final description t h p r l =
      let t' = upload_finished final description t in
      let fired =
        timer_step raw laws 0 expired t' (finished_step raw 1 final description t p r).ready in
      let (file, one, is_file) =
        Carry-one (IsStatusFile raw) (status_files (upload_timer_handler raw expired t').1)
          (current_status t') fired.carries in
      (
        rw (one, deliver_eq raw is_file.0 file (current_status t') h l is_file.1)
            (rw (final_at_host final description t.status_v.status h.upload_base) refl),
        rw
            (final_at_target final description t.status_v.status
              (upload_timer_handler raw expired t').0.target_base)
            refl,
      )
