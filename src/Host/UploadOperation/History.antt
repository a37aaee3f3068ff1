-- ===== src/Host/UploadOperation/History.antt =====
-- The upload operation of the host under any sequence of events. A call that the handler makes while
-- it is called is an event of its own.
use arinc_615a_cli_tool_suit.Base.{
  List, [], false, or_left, refl, run_events, run_events_waits, true, ℕ, ◌==◌, ◌||◌, ◌∷◌, ◌≡◌,
}
use arinc_615a_cli_tool_suit.Host.Operation.{
  AbortReason, do_abort, do_terminate, finished, finishes, initialisation_file_completed,
  initialisation_file_deferred, initialise, remove, status_not_initiated, status_not_received,
  stops_server, timer_handler,
}
use arinc_615a_cli_tool_suit.Host.Operation.Progress.{
  do_abort_lively, do_terminate_lively, has_finished, initialisation_lively, is_finish, is_lively,
  is_waiting, timer_handler_lively,
}
use arinc_615a_cli_tool_suit.Host.UploadOperation.{
  UploadOperation, UploadOutcome, load_list, load_list_completed, start_upload,
  upload_status_completed, upload_status_received, upload_tftp_request, with_upload_base,
}
use arinc_615a_cli_tool_suit.Host.UploadOperation.Progress.{
  load_list_completed_lively, load_list_lively, upload_status_completed_lively,
  upload_tftp_request_lively,
}
use arinc_615a_cli_tool_suit.Information.{UploadLoad}
use arinc_615a_cli_tool_suit.RawData.{RawDataOps}
use arinc_615a_cli_tool_suit.Status.{operation_aborted_by_dlp}
use arinc_615a_cli_tool_suit.Tftp.{RequestType, TftpTransferStatus, TransferStatus, tftp_successful}
use arinc_615a_cli_tool_suit.Tftp.ClientOperation.{TimerResult}

pub data UploadEvent : Type 0 where
  upload_abort upload_terminate : AbortReason → UploadEvent
  upload_initialisation : TransferStatus → List ℕ → UploadEvent
  upload_load_list : List UploadLoad → UploadEvent
  upload_list_completion : TransferStatus → UploadEvent
  upload_server_request : RequestType → List ℕ → ℕ → UploadEvent
  upload_status_completion : ℕ → TftpTransferStatus → List ℕ → UploadEvent
  upload_deferral : ℕ → UploadEvent
  upload_timer : TimerResult → UploadEvent

module _ (raw : RawDataOps) where
  unfoldable pub handle_upload_event : UploadEvent → UploadOperation → UploadOutcome
  handle_upload_event (upload_abort reason) s = with_upload_base s (do_abort reason s.upload_base)
  handle_upload_event (upload_terminate reason) s =
      with_upload_base s (do_terminate reason s.upload_base)
  handle_upload_event (upload_initialisation status raw_file) s =
      with_upload_base s (initialisation_file_completed raw status raw_file s.upload_base)
  handle_upload_event (upload_load_list loads) s = load_list raw loads s
  handle_upload_event (upload_list_completion status) s = load_list_completed status s
  handle_upload_event (upload_server_request request_type filename operation) s =
      upload_tftp_request request_type filename operation s
  handle_upload_event (upload_status_completion operation status raw_file) s =
      upload_status_completed raw operation status raw_file s
  handle_upload_event (upload_deferral wait_time) s =
      with_upload_base s (initialisation_file_deferred wait_time s.upload_base)
  handle_upload_event (upload_timer result) s =
      with_upload_base s (timer_handler result s.upload_base)

  abbrev pub run_upload : List UploadEvent → UploadOperation → UploadOutcome
  run_upload = run_events handle_upload_event

module _ (raw : RawDataOps) where
  upload_event_lively :
      (e : UploadEvent) (s : UploadOperation)
      → is_waiting s.upload_base ≡ true
      → let outcome = handle_upload_event raw e s in
        is_lively outcome.0.upload_base outcome.1 ≡ true
  unfolding handle_upload_event initialisation_file_deferred
  upload_event_lively (upload_abort reason) s h = do_abort_lively reason s.upload_base h
  upload_event_lively (upload_terminate reason) s h = do_terminate_lively reason s.upload_base
  upload_event_lively (upload_initialisation status raw_file) s h =
      initialisation_lively raw status raw_file s.upload_base
  upload_event_lively (upload_load_list loads) s h = load_list_lively raw loads s h
  upload_event_lively (upload_list_completion status) s h = load_list_completed_lively status s h
  upload_event_lively (upload_server_request t filename operation) s h =
      upload_tftp_request_lively t filename operation s h
  upload_event_lively (upload_status_completion operation status raw_file) s h =
      upload_status_completed_lively raw operation status raw_file s h
  upload_event_lively (upload_deferral wait_time) s h = or_left _ _ h
  upload_event_lively (upload_timer result) s h = timer_handler_lively result s.upload_base h

  upload_waits_or_has_finished :
      (events : List UploadEvent) (s : UploadOperation)
      → is_waiting s.upload_base ≡ true
      → let outcome = run_upload raw events s in
        is_waiting outcome.0.upload_base || has_finished outcome.1 ≡ true
  upload_waits_or_has_finished =
      run_events_waits (handle_upload_event raw) (λ s. is_waiting s.upload_base) is_finish
        upload_event_lively

  -- An upload that was started has its initialisation in progress or its timer armed after any
  -- sequence of events, unless the user was told that it is finished.
  pub started_upload_waits_or_has_finished :
      (events : List UploadEvent) (s : UploadOperation)
      → let outcome = run_upload raw events (start_upload s).0 in
        is_waiting outcome.0.upload_base || has_finished outcome.1 ≡ true
  unfolding start_upload initialise
  started_upload_waits_or_has_finished events s =
      upload_waits_or_has_finished events (start_upload s).0 refl

-- Where a status file is completed that was not being received, and its reception failed, the user is
-- told twice that the operation is finished, and the server is stopped twice.
unknown_status_finishes_twice :
    (raw : RawDataOps) (operation : ℕ) (status : TftpTransferStatus) (raw_file : List ℕ)
    (s : UploadOperation)
    → ¬ (status ≡ tftp_successful)
    → (remove operation s.upload_status_operations_v).0 == 1 ≡ false
    → (upload_status_completed raw operation status raw_file s).1
      ≡ finishes operation_aborted_by_dlp status_not_initiated
        ∷ stops_server
        ∷ finishes operation_aborted_by_dlp status_not_received
        ∷ stops_server
        ∷ []
unfolding upload_status_completed upload_status_received finished
unknown_status_finishes_twice raw operation tftp_successful raw_file s u h = absurd (u refl)
unknown_status_finishes_twice raw operation _ raw_file s u h = rw h refl
