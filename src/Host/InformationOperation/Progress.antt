-- ===== src/Host/InformationOperation/Progress.antt =====
-- What each handler of the information operation waits for when it returns.
use arinc_615a_cli_tool_suit.Base.{
  Bool, Bool-cases, List, Result, [], any_of-behind, err, inl, inr, is_caught, ok, or_left, refl,
  true, ℕ, ◌∷◌, ◌≡◌,
}
use arinc_615a_cli_tool_suit.Files.InformationStatusFile.{InformationStatusFile}
use arinc_615a_cli_tool_suit.Files.LoadConfigurationListFile.{LoadConfigurationListFile}
use arinc_615a_cli_tool_suit.Host.InformationOperation.{
  InformationOperation, file_request, handle_status, list_failed, list_file_request, list_read,
  status_file_request, status_read, tftp_request,
}
use arinc_615a_cli_tool_suit.Host.Operation.{
  abort_protocol, check_request, is_aborted, is_no_abort, no_abort, reports_hardware,
  reports_status,
}
use arinc_615a_cli_tool_suit.Host.Operation.Progress.{
  do_abort_lively, finished_lively, is_finish, is_lively, is_waiting, triggered_lively,
}
use arinc_615a_cli_tool_suit.Information.{Status}
use arinc_615a_cli_tool_suit.ProtocolFilename.{
  ProtocolFileType, filename_of_string, load_configuration_list, load_configuration_status,
}
use arinc_615a_cli_tool_suit.Status.{
  StatusCode, operation_accepted, operation_in_progress, operation_in_progress_additional_info,
}
use arinc_615a_cli_tool_suit.Tftp.{RequestType}

pub handle_status_lively :
    (c : StatusCode) (status : Status) (s : InformationOperation)
    → status.code ≡ c
    → is_lively (handle_status status s).0.base (handle_status status s).1 ≡ true
unfolding handle_status
handle_status_lively operation_accepted status s e = rw e (triggered_lively _ s.base [])
handle_status_lively operation_in_progress status s e = rw e (triggered_lively _ s.base [])
handle_status_lively operation_in_progress_additional_info status s e =
    rw e (triggered_lively _ s.base [])
handle_status_lively _ status s e = rw e (finished_lively _ _ s.base)

pub status_read_lively :
    (r : Result InformationStatusFile) (s : InformationOperation)
    → is_waiting s.base ≡ true
    → is_lively (status_read r s).0.base (status_read r s).1 ≡ true
unfolding status_read
status_read_lively (err e) s h = or_left _ _ h
status_read_lively (ok file) s h =
    any_of-behind is_finish _ (reports_status file.status ∷ []) _
      (handle_status_lively file.status.code file.status s refl)

pub list_failed_lively :
    (s : InformationOperation)
    → is_waiting s.base ≡ true
    → is_lively (list_failed s).0.base (list_failed s).1 ≡ true
unfolding list_failed
list_failed_lively s h = elim (Bool-cases s.wait_for_final_status_v) [
  | inl e ↦ rw e (do_abort_lively abort_protocol s.base h)
  | inr e ↦ rw e (finished_lively _ _ s.base)
]

pub list_read_lively :
    (r : Result LoadConfigurationListFile) (integrity : Bool) (s : InformationOperation)
    → is_waiting s.base ≡ true
    → is_lively (list_read r integrity s).0.base (list_read r integrity s).1 ≡ true
unfolding list_read
list_read_lively (err e) integrity s h = elim (Bool-cases (is_caught e)) [
  | inl c ↦ rw c (list_failed_lively s h)
  | inr c ↦ rw c (or_left _ _ h)
]
list_read_lively (ok file) integrity s h = elim (Bool-cases s.wait_for_final_status_v) [
  | inl e ↦ rw e (triggered_lively 0 s.base (reports_hardware file.targets_hardware integrity ∷ []))
  | inr e ↦ rw e (
      any_of-behind is_finish _ (reports_hardware file.targets_hardware integrity ∷ []) _
        (finished_lively _ _ s.base))
]

pub status_request_lively :
    (operation : ℕ) (s : InformationOperation)
    → is_waiting s.base ≡ true
    → is_lively (status_file_request operation s).0.base (status_file_request operation s).1 ≡ true
unfolding status_file_request is_aborted
status_request_lively operation s h = elim (Bool-cases (is_no_abort s.base.abort_reason_v)) [
  | inl e ↦ rw e (or_left _ _ h)
  | inr e ↦ rw e (triggered_lively 0 (record s.base { abort_reason_v = no_abort }) _)
]

pub file_request_lively :
    (t : ProtocolFileType) (operation : ℕ) (s : InformationOperation)
    → is_waiting s.base ≡ true
    → is_lively (file_request t operation s).0.base (file_request t operation s).1 ≡ true
unfolding file_request list_file_request
file_request_lively load_configuration_list operation s h = or_left _ _ h
file_request_lively load_configuration_status operation s h = status_request_lively operation s h
file_request_lively _ operation s h = or_left _ _ h

pub tftp_request_lively :
    (t : RequestType) (filename : List ℕ) (operation : ℕ) (s : InformationOperation)
    → is_waiting s.base ≡ true
    → is_lively (tftp_request t filename operation s).0.base (tftp_request t filename operation s).1
      ≡ true
unfolding tftp_request
tftp_request_lively t filename operation s h = elim (Bool-cases (check_request filename s.base)) [
  | inl e ↦ rw e (
      any_of-behind is_finish _ _ _
        (file_request_lively (filename_of_string filename).file_type operation s h))
  | inr e ↦ rw e (or_left _ _ h)
]
