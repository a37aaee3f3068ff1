-- ===== src/Host/UploadOperation/Actions.antt =====
-- The handlers of the base class and of a status file send no load list.
use arinc_615a_cli_tool_suit.Base.{
  Bool, List, Result, [], any_of, any_of-append, err, false, if◌then◌else◌, not, ok, refl, true, ℕ,
  ◌∷◌, ◌≡◌,
}
use arinc_615a_cli_tool_suit.Files.InitializationFile.{InitializationFile}
use arinc_615a_cli_tool_suit.Host.Operation.{
  AbortReason, Description, HostAction, HostOperation, HostOutcome, aborts_initialisation, do_abort,
  do_terminate, finished, handle_response, initialisation_file_completed, is_no_abort,
  response_read, sends_load_list, timer_handler,
}
use arinc_615a_cli_tool_suit.Host.UploadOperation.{handle_upload_status}
use arinc_615a_cli_tool_suit.Information.{Status}
use arinc_615a_cli_tool_suit.RawData.{RawDataOps}
use arinc_615a_cli_tool_suit.Status.{
  Arinc615aVersion, OperationAcceptanceStatusCode, StatusCode, accepted, deferred, denied,
  not_supported, operation_accepted, operation_in_progress, operation_in_progress_additional_info,
}
use arinc_615a_cli_tool_suit.Tftp.{TransferStatus, successful}
use arinc_615a_cli_tool_suit.Tftp.ClientOperation.{
  TimerResult, expired, operation_aborted, timer_error,
}

abbrev pub is_load_list : HostAction → Bool
is_load_list (sends_load_list _ _) = true
is_load_list _ = false

abbrev pub sends_list : List HostAction → Bool
sends_list actions = any_of is_load_list actions

sends_if :
    (b : Bool) (x y : List HostAction)
    → sends_list x ≡ false
    → sends_list y ≡ false
    → sends_list (if b then x else y) ≡ false
sends_if true x y h k = h
sends_if false x y h k = k

sends_if_outcome :
    (b : Bool) (x y : HostOutcome)
    → sends_list x.1 ≡ false
    → sends_list y.1 ≡ false
    → sends_list (if b then x else y).1 ≡ false
sends_if_outcome true x y h k = h
sends_if_outcome false x y h k = k

pub finished_sends :
    (c : StatusCode) (d : Description) (s : HostOperation) → sends_list (finished c d s).1 ≡ false
unfolding finished any_of
finished_sends c d s = refl

pub do_abort_sends :
    (reason : AbortReason) (s : HostOperation) → sends_list (do_abort reason s).1 ≡ false
unfolding do_abort any_of
do_abort_sends reason s =
    sends_if_outcome (not (is_no_abort s.abort_reason_v)) _ _ refl
      (sends_if s.initialisation_operation_v _ _ refl refl)

pub do_terminate_sends :
    (reason : AbortReason) (s : HostOperation) → sends_list (do_terminate reason s).1 ≡ false
unfolding do_terminate finished any_of
do_terminate_sends reason s =
    any_of-append is_load_list
      (if s.initialisation_operation_v then aborts_initialisation ∷ [] else []) _
      (sends_if s.initialisation_operation_v _ _ refl refl) refl

pub timer_handler_sends :
    (result : TimerResult) (s : HostOperation) → sends_list (timer_handler result s).1 ≡ false
unfolding timer_handler finished any_of
timer_handler_sends operation_aborted s = refl
timer_handler_sends timer_error s = refl
timer_handler_sends expired s = refl

handle_response_sends :
    (v : Arinc615aVersion) (c : OperationAcceptanceStatusCode) (d : List ℕ) (s : HostOperation)
    → sends_list (handle_response v (record { code = c; description = d }) s).1 ≡ false
unfolding handle_response finished any_of
handle_response_sends v accepted d s = refl
handle_response_sends v denied d s = refl
handle_response_sends v not_supported d s = refl
handle_response_sends v deferred d s = refl

response_read_sends :
    (r : Result InitializationFile) (s : HostOperation) → sends_list (response_read r s).1 ≡ false
unfolding response_read finished any_of
response_read_sends (err e) s = refl
response_read_sends (ok file) s =
    handle_response_sends file.version file.response.code file.response.description s

pub handle_upload_status_sends :
    (c : StatusCode) (status : Status) (s : HostOperation)
    → status.code ≡ c
    → sends_list (handle_upload_status status s).1 ≡ false
unfolding handle_upload_status finished any_of
handle_upload_status_sends operation_accepted status s e = rw e refl
handle_upload_status_sends operation_in_progress status s e = rw e refl
handle_upload_status_sends operation_in_progress_additional_info status s e = rw e refl
handle_upload_status_sends _ status s e = rw e refl

module _ (raw : RawDataOps) where
  pub initialisation_sends :
      (status : TransferStatus) (raw_file : List ℕ) (s : HostOperation)
      → sends_list (initialisation_file_completed raw status raw_file s).1 ≡ false
  unfolding initialisation_file_completed
  initialisation_sends successful raw_file s = response_read_sends _ _
  initialisation_sends _ raw_file s = finished_sends _ _ _
