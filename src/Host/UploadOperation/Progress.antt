-- ===== src/Host/UploadOperation/Progress.antt =====
-- What each handler of the upload operation waits for when it returns.
use arinc_615a_cli_tool_suit.Base.{
  Bool, Bool-cases, List, Result, [], any_of, any_of-behind, err, false, if◌then◌else◌, inl, inr,
  ok, or_left, or_true, refl, true, ℕ, ◌==◌, ◌∷◌, ◌≡◌,
}
use arinc_615a_cli_tool_suit.Files.UploadStatusFile.{UploadStatusFile}
use arinc_615a_cli_tool_suit.Host.Operation.{
  HostOperation, abort_protocol, check_request, finished, is_aborted, remove, reports_upload_status,
}
use arinc_615a_cli_tool_suit.Host.Operation.Progress.{
  do_abort_lively, finished_lively, is_aborted_lively, is_finish, is_lively, is_waiting,
  triggered_lively,
}
use arinc_615a_cli_tool_suit.Host.UploadOperation.{
  UploadOperation, UploadOutcome, handle_upload_status, load_list, load_list_completed,
  send_load_list, upload_status_completed, upload_status_read, upload_status_received,
  upload_status_request, upload_tftp_request, upload_write_request,
}
use arinc_615a_cli_tool_suit.Information.{Status, UploadLoad}
use arinc_615a_cli_tool_suit.ProtocolFilename.{ProtocolFileType, filename_of_string, upload_status}
use arinc_615a_cli_tool_suit.RawData.{RawDataOps}
use arinc_615a_cli_tool_suit.Status.{
  StatusCode, operation_accepted, operation_in_progress, operation_in_progress_additional_info,
}
use arinc_615a_cli_tool_suit.Tftp.{
  RequestType, TftpTransferStatus, TransferStatus, read_request, successful, tftp_successful,
  write_request,
}

either_upload_lively :
    (b : Bool) (x y : UploadOutcome)
    → is_lively x.0.upload_base x.1 ≡ true
    → is_lively y.0.upload_base y.1 ≡ true
    → is_lively (if b then x else y).0.upload_base (if b then x else y).1 ≡ true
either_upload_lively true x y h k = h
either_upload_lively false x y h k = k

send_load_list_lively :
    (r : Result (List ℕ)) (s : UploadOperation)
    → is_waiting s.upload_base ≡ true
    → is_lively (send_load_list r s).0.upload_base (send_load_list r s).1 ≡ true
unfolding send_load_list
send_load_list_lively (err e) s h = or_left _ _ h
send_load_list_lively (ok file) s h = or_left _ _ h

pub load_list_completed_lively :
    (status : TransferStatus) (s : UploadOperation)
    → is_waiting s.upload_base ≡ true
    → is_lively (load_list_completed status s).0.upload_base (load_list_completed status s).1 ≡ true
unfolding load_list_completed
load_list_completed_lively successful s h = or_left _ _ h
load_list_completed_lively _ s h = do_abort_lively abort_protocol s.upload_base h

upload_status_request_lively :
    (operation : ℕ) (s : UploadOperation)
    → is_waiting s.upload_base ≡ true
    → let outcome = upload_status_request operation s in
      is_lively outcome.0.upload_base outcome.1 ≡ true
unfolding upload_status_request
upload_status_request_lively operation s h = elim (Bool-cases (is_aborted s.upload_base).0) [
  | inl e ↦ rw e (is_aborted_lively s.upload_base h)
  | inr e ↦ rw e (or_left _ _ h)
]

upload_write_request_lively :
    (t : ProtocolFileType) (operation : ℕ) (s : UploadOperation)
    → is_waiting s.upload_base ≡ true
    → let outcome = upload_write_request t operation s in
      is_lively outcome.0.upload_base outcome.1 ≡ true
unfolding upload_write_request
upload_write_request_lively upload_status operation s h = upload_status_request_lively operation s h
upload_write_request_lively _ operation s h = or_left _ _ h

pub upload_tftp_request_lively :
    (t : RequestType) (filename : List ℕ) (operation : ℕ) (s : UploadOperation)
    → is_waiting s.upload_base ≡ true
    → let outcome = upload_tftp_request t filename operation s in
      is_lively outcome.0.upload_base outcome.1 ≡ true
unfolding upload_tftp_request
upload_tftp_request_lively read_request filename operation s h =
    elim (Bool-cases (check_request filename s.upload_base)) [
      | inl e ↦ rw e (or_left _ _ h)
      | inr e ↦ rw e (or_left _ _ h)
    ]
upload_tftp_request_lively write_request filename operation s h =
    elim (Bool-cases (check_request filename s.upload_base)) [
      | inl e ↦
          rw e (upload_write_request_lively (filename_of_string filename).file_type operation s h)
      | inr e ↦ rw e (or_left _ _ h)
    ]

pub handle_upload_status_lively :
    (c : StatusCode) (status : Status) (s : HostOperation)
    → status.code ≡ c
    → is_lively (handle_upload_status status s).0 (handle_upload_status status s).1 ≡ true
unfolding handle_upload_status
handle_upload_status_lively operation_accepted status s e = rw e (triggered_lively _ s [])
handle_upload_status_lively operation_in_progress status s e = rw e (triggered_lively _ s [])
handle_upload_status_lively operation_in_progress_additional_info status s e =
    rw e (triggered_lively _ s [])
handle_upload_status_lively _ status s e = rw e (finished_lively _ _ s)

upload_status_read_lively :
    (r : Result UploadStatusFile) (s : UploadOperation)
    → is_waiting s.upload_base ≡ true
    → is_lively (upload_status_read r s).0.upload_base (upload_status_read r s).1 ≡ true
unfolding upload_status_read
upload_status_read_lively (err e) s h = or_left _ _ h
upload_status_read_lively (ok file) s h =
    any_of-behind is_finish _ (reports_upload_status file.status ∷ []) _
      (handle_upload_status_lively file.status.status.code file.status.status s.upload_base refl)

module _ (raw : RawDataOps) where
  pub load_list_lively :
      (loads : List UploadLoad) (s : UploadOperation)
      → is_waiting s.upload_base ≡ true
      → let outcome = load_list raw loads s in is_lively outcome.0.upload_base outcome.1 ≡ true
  unfolding load_list
  load_list_lively loads s h =
      either_upload_lively s.load_list_sent_v _ _ (or_left _ _ h) (send_load_list_lively _ s h)

  upload_status_received_lively :
      (status : TftpTransferStatus) (raw_file : List ℕ) (s : UploadOperation)
      → is_waiting s.upload_base ≡ true
      → let outcome = upload_status_received raw status raw_file s in
        is_lively outcome.0.upload_base outcome.1 ≡ true
  unfolding upload_status_received
  upload_status_received_lively tftp_successful raw_file s h = upload_status_read_lively _ s h
  upload_status_received_lively _ raw_file s h = finished_lively _ _ s.upload_base

  pub upload_status_completed_lively :
      (operation : ℕ) (status : TftpTransferStatus) (raw_file : List ℕ) (s : UploadOperation)
      → is_waiting s.upload_base ≡ true
      → let outcome = upload_status_completed raw operation status raw_file s in
        is_lively outcome.0.upload_base outcome.1 ≡ true
  unfolding upload_status_completed finished any_of
  upload_status_completed_lively operation status raw_file s h =
      elim (Bool-cases ((remove operation s.upload_status_operations_v).0 == 1)) [
        | inl e ↦ rw e (upload_status_received_lively status raw_file _ h)
        | inr e ↦ rw e (or_true _)
      ]
