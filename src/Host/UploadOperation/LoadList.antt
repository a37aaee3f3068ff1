-- ===== src/Host/UploadOperation/LoadList.antt =====
-- The load list of the upload operation under any sequence of events.
use arinc_615a_cli_tool_suit.Base.{
  Bool, Bool-cases, List, Result, [], any_of, any_of-append, err, false, if◌then◌else◌, inl, inr,
  is_caught, not, ok, refl, run_events, true, ℕ, ◌==◌, ◌∷◌, ◌≡◌,
}
use arinc_615a_cli_tool_suit.Files.UploadStatusFile.{UploadStatusFile}
use arinc_615a_cli_tool_suit.Host.Operation.{
  abort_protocol, check_request, finished, initialisation_file_deferred, is_aborted, is_no_abort,
  remove,
}
use arinc_615a_cli_tool_suit.Host.UploadOperation.{
  UploadOperation, UploadOutcome, load_list, load_list_completed, upload_status_completed,
  upload_status_read, upload_status_received, upload_status_request, upload_tftp_request,
  upload_write_request,
}
use arinc_615a_cli_tool_suit.Host.UploadOperation.Actions.{
  do_abort_sends, do_terminate_sends, finished_sends, handle_upload_status_sends,
  initialisation_sends, is_load_list, sends_list, timer_handler_sends,
}
use arinc_615a_cli_tool_suit.Host.UploadOperation.History.{
  UploadEvent, handle_upload_event, run_upload, upload_abort, upload_deferral,
  upload_initialisation, upload_list_completion, upload_load_list, upload_server_request,
  upload_status_completion, upload_terminate, upload_timer,
}
use arinc_615a_cli_tool_suit.ProtocolFilename.{ProtocolFileType, filename_of_string, upload_status}
use arinc_615a_cli_tool_suit.RawData.{RawDataOps}
use arinc_615a_cli_tool_suit.Tftp.{
  RequestType, TftpTransferStatus, TransferStatus, read_request, successful, tftp_successful,
  write_request,
}

-- The list is still sent, and was not sent again.
abbrev pub IsSentOnce : UploadOutcome → Type 0
IsSentOnce outcome = (outcome.0.load_list_sent_v ≡ true) × (sends_list outcome.1 ≡ false)

sent_if :
    (b : Bool) (x y : UploadOutcome) → IsSentOnce x → IsSentOnce y → IsSentOnce (if b then x else y)
sent_if true x y h k = h
sent_if false x y h k = k

taken_if :
    (b : Bool) (x y : UploadOutcome) → b ≡ true → IsSentOnce x → IsSentOnce (if b then x else y)
taken_if true x y h k = k
taken_if false x y h k = cc

upload_status_request_sent :
    (operation : ℕ) (s : UploadOperation)
    → s.load_list_sent_v ≡ true
    → IsSentOnce (upload_status_request operation s)
unfolding upload_status_request is_aborted any_of
upload_status_request_sent operation s h =
    elim (Bool-cases (is_no_abort s.upload_base.abort_reason_v)) [
      | inl e ↦ rw e (h, refl)
      | inr e ↦ rw e (h, refl)
    ]

upload_write_request_sent :
    (t : ProtocolFileType) (operation : ℕ) (s : UploadOperation)
    → s.load_list_sent_v ≡ true
    → IsSentOnce (upload_write_request t operation s)
unfolding upload_write_request any_of
upload_write_request_sent upload_status operation s h = upload_status_request_sent operation s h
upload_write_request_sent _ operation s h = (h, refl)

upload_tftp_request_sent :
    (t : RequestType) (filename : List ℕ) (operation : ℕ) (s : UploadOperation)
    → s.load_list_sent_v ≡ true
    → IsSentOnce (upload_tftp_request t filename operation s)
unfolding upload_tftp_request any_of
upload_tftp_request_sent read_request filename operation s h =
    sent_if (not (check_request filename s.upload_base)) _ _ (h, refl) (h, refl)
upload_tftp_request_sent write_request filename operation s h =
    sent_if (not (check_request filename s.upload_base)) _ _ (h, refl)
      (upload_write_request_sent (filename_of_string filename).file_type operation s h)

upload_status_read_sent :
    (r : Result UploadStatusFile) (s : UploadOperation)
    → s.load_list_sent_v ≡ true
    → IsSentOnce (upload_status_read r s)
unfolding upload_status_read any_of
upload_status_read_sent (err e) s h = elim (Bool-cases (is_caught e)) [
  | inl c ↦ rw c (h, refl)
  | inr c ↦ rw c (h, refl)
]
upload_status_read_sent (ok file) s h =
    (h, handle_upload_status_sends file.status.status.code file.status.status s.upload_base refl)

load_list_completed_sent :
    (status : TransferStatus) (s : UploadOperation)
    → s.load_list_sent_v ≡ true
    → IsSentOnce (load_list_completed status s)
unfolding load_list_completed any_of
load_list_completed_sent successful s h = (refl, refl)
load_list_completed_sent _ s h = (h, do_abort_sends abort_protocol s.upload_base)

module _ (raw : RawDataOps) where
  upload_status_received_sent :
      (status : TftpTransferStatus) (raw_file : List ℕ) (s : UploadOperation)
      → s.load_list_sent_v ≡ true
      → IsSentOnce (upload_status_received raw status raw_file s)
  unfolding upload_status_received
  upload_status_received_sent tftp_successful raw_file s h = upload_status_read_sent _ s h
  upload_status_received_sent _ raw_file s h = (h, finished_sends _ _ s.upload_base)

  upload_status_completed_sent :
      (operation : ℕ) (status : TftpTransferStatus) (raw_file : List ℕ) (s : UploadOperation)
      → s.load_list_sent_v ≡ true
      → IsSentOnce (upload_status_completed raw operation status raw_file s)
  unfolding upload_status_completed finished any_of
  upload_status_completed_sent operation status raw_file s h =
      elim (Bool-cases ((remove operation s.upload_status_operations_v).0 == 1)) [
        | inl e ↦ rw e (upload_status_received_sent status raw_file _ h)
        | inr e ↦ rw e (upload_status_received_sent status raw_file _ h)
      ]

  handle_upload_event_sent :
      (e : UploadEvent) (s : UploadOperation)
      → s.load_list_sent_v ≡ true
      → IsSentOnce (handle_upload_event raw e s)
  unfolding handle_upload_event initialisation_file_deferred load_list any_of
  handle_upload_event_sent (upload_abort reason) s h = (h, do_abort_sends reason s.upload_base)
  handle_upload_event_sent (upload_terminate reason) s h =
      (h, do_terminate_sends reason s.upload_base)
  handle_upload_event_sent (upload_initialisation status raw_file) s h =
      (h, initialisation_sends raw status raw_file s.upload_base)
  handle_upload_event_sent (upload_load_list loads) s h =
      taken_if s.load_list_sent_v _ _ h (h, refl)
  handle_upload_event_sent (upload_list_completion status) s h = load_list_completed_sent status s h
  handle_upload_event_sent (upload_server_request t filename operation) s h =
      upload_tftp_request_sent t filename operation s h
  handle_upload_event_sent (upload_status_completion operation status raw_file) s h =
      upload_status_completed_sent operation status raw_file s h
  handle_upload_event_sent (upload_deferral wait_time) s h = (h, refl)
  handle_upload_event_sent (upload_timer result) s h = (h, timer_handler_sends result s.upload_base)

  run_upload_sent :
      (events : List UploadEvent) (s : UploadOperation)
      → s.load_list_sent_v ≡ true
      → IsSentOnce (run_upload raw events s)
  unfolding run_events any_of
  run_upload_sent [] s h = (h, refl)
  run_upload_sent (e ∷ events) s h =
      let first = handle_upload_event_sent e s h in
      let rest = run_upload_sent events (handle_upload_event raw e s).0 first.0 in
      (rest.0, any_of-append is_load_list (handle_upload_event raw e s).1 _ first.1 rest.1)

  -- Once the target took the load list, no sequence of events that does not start the operation again
  -- makes the host send a load list.
  pub load_list_is_not_sent_again :
      (events : List UploadEvent) (s : UploadOperation)
      → let taken = (load_list_completed successful s).0 in
        let outcome = run_upload raw events taken in
        (outcome.0.load_list_sent_v ≡ true) × (sends_list outcome.1 ≡ false)
  unfolding load_list_completed
  load_list_is_not_sent_again events s =
      run_upload_sent events (load_list_completed successful s).0 refl
