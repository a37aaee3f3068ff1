-- ===== src/Host/DownloadOperation/Progress.antt =====
-- What each handler of the download operations waits for when it returns.
use arinc_615a_cli_tool_suit.Base.{
  Bool, Bool-cases, List, Result, [], any_of, any_of-behind, err, false, if◌then◌else◌, inl, inr,
  is_caught, not, ok, or_left, or_true, refl, true, ℕ, ◌==◌, ◌∷◌, ◌≡◌,
}
use arinc_615a_cli_tool_suit.Files.DownloadListFile.{DownloadListFile}
use arinc_615a_cli_tool_suit.Files.DownloadStatusFile.{DownloadStatusFile}
use arinc_615a_cli_tool_suit.Host.DownloadOperation.{
  DownloadOperation, DownloadOutcome, answer_download, download_file_completed,
  download_list_completed, download_list_read, download_list_request, download_status_request,
  download_tftp_request, download_write_request, host_download_status_completed,
  host_download_status_read, host_download_status_received, request_download, send_download_file,
}
use arinc_615a_cli_tool_suit.Host.Operation.{
  abort_protocol, check_request, finished, is_aborted, remove, reports_download_status,
}
use arinc_615a_cli_tool_suit.Host.Operation.Progress.{
  do_abort_lively, finished_lively, is_aborted_lively, is_finish, is_lively, is_waiting,
}
use arinc_615a_cli_tool_suit.Host.UploadOperation.Progress.{handle_upload_status_lively}
use arinc_615a_cli_tool_suit.ProtocolFilename.{
  ProtocolFileType, download_status, filename_of_string, operator_defined_download_list,
}
use arinc_615a_cli_tool_suit.RawData.{RawDataOps}
use arinc_615a_cli_tool_suit.Status.{DownloadKind, media_defined, operator_defined}
use arinc_615a_cli_tool_suit.Tftp.{
  RequestType, TftpTransferStatus, TransferStatus, read_request, successful, tftp_successful,
  write_request,
}

abbrev pub IsOngoing : DownloadOutcome → Type 0
IsOngoing o = is_lively o.0.download_base o.1 ≡ true

either_download_lively :
    (b : Bool) (x y : DownloadOutcome) → IsOngoing x → IsOngoing y → IsOngoing (if b then x else y)
either_download_lively true x y h k = h
either_download_lively false x y h k = k

send_download_file_lively :
    (t : ProtocolFileType) (r : Result (List ℕ)) (s : DownloadOperation)
    → is_waiting s.download_base ≡ true
    → IsOngoing (send_download_file t r s)
unfolding send_download_file
send_download_file_lively t (err e) s h = or_left _ _ h
send_download_file_lively t (ok file) s h = or_left _ _ h

pub download_file_completed_lively :
    (status : TransferStatus) (s : DownloadOperation)
    → is_waiting s.download_base ≡ true
    → IsOngoing (download_file_completed status s)
unfolding download_file_completed
download_file_completed_lively successful s h = or_left _ _ h
download_file_completed_lively _ s h = do_abort_lively abort_protocol s.download_base h

download_status_request_lively :
    (operation : ℕ) (s : DownloadOperation)
    → is_waiting s.download_base ≡ true
    → IsOngoing (download_status_request operation s)
unfolding download_status_request
download_status_request_lively operation s h = elim (Bool-cases (is_aborted s.download_base).0) [
  | inl e ↦ rw e (is_aborted_lively s.download_base h)
  | inr e ↦ rw e (or_left _ _ h)
]

write_lively :
    (kind : DownloadKind) (t : ProtocolFileType) (filename : List ℕ) (operation : ℕ)
    (s : DownloadOperation)
    → is_waiting s.download_base ≡ true
    → IsOngoing (download_write_request kind t filename operation s)
unfolding download_write_request download_list_request
write_lively media_defined download_status filename operation s h =
    download_status_request_lively operation s h
write_lively media_defined _ filename operation s h = or_left _ _ h
write_lively operator_defined download_status filename operation s h =
    download_status_request_lively operation s h
write_lively operator_defined operator_defined_download_list filename operation s h = or_left _ _ h
write_lively operator_defined _ filename operation s h = or_left _ _ h

pub download_tftp_request_lively :
    (kind : DownloadKind) (t : RequestType) (filename : List ℕ) (operation : ℕ)
    (s : DownloadOperation)
    → is_waiting s.download_base ≡ true
    → IsOngoing (download_tftp_request kind t filename operation s)
unfolding download_tftp_request
download_tftp_request_lively kind read_request filename operation s h =
    either_download_lively (not (check_request filename s.download_base)) _ _ (or_left _ _ h)
      (or_left _ _ h)
download_tftp_request_lively kind write_request filename operation s h =
    either_download_lively (not (check_request filename s.download_base)) _ _ (or_left _ _ h)
      (write_lively kind (filename_of_string filename).file_type filename operation s h)

host_status_read_lively :
    (r : Result DownloadStatusFile) (s : DownloadOperation)
    → is_waiting s.download_base ≡ true
    → IsOngoing (host_download_status_read r s)
unfolding host_download_status_read
host_status_read_lively (err e) s h = or_left _ _ h
host_status_read_lively (ok file) s h =
    any_of-behind is_finish _ (reports_download_status file.status ∷ []) _
      (handle_upload_status_lively file.status.status.code file.status.status s.download_base refl)

download_list_read_lively :
    (r : Result DownloadListFile) (s : DownloadOperation)
    → is_waiting s.download_base ≡ true
    → IsOngoing (download_list_read r s)
unfolding download_list_read
download_list_read_lively (err e) s h =
    either_download_lively (is_caught e) _ _ (do_abort_lively abort_protocol s.download_base h)
      (or_left _ _ h)
download_list_read_lively (ok file) s h = or_left _ _ h

module _ (raw : RawDataOps) where
  pub request_download_lively :
      (files : List (List ℕ)) (user_defined_data : List ℕ) (s : DownloadOperation)
      → is_waiting s.download_base ≡ true
      → IsOngoing (request_download raw files user_defined_data s)
  unfolding request_download
  request_download_lively files user_defined_data s h =
      either_download_lively s.sent_v _ _ (or_left _ _ h) (send_download_file_lively _ _ s h)

  pub answer_download_lively :
      (files : List (List ℕ)) (s : DownloadOperation)
      → is_waiting s.download_base ≡ true
      → IsOngoing (answer_download raw files s)
  unfolding answer_download
  answer_download_lively files s h =
      either_download_lively s.sent_v _ _ (or_left _ _ h) (send_download_file_lively _ _ s h)

  pub download_list_completed_lively :
      (status : TftpTransferStatus) (raw_file : List ℕ) (s : DownloadOperation)
      → is_waiting s.download_base ≡ true
      → IsOngoing (download_list_completed raw status raw_file s)
  unfolding download_list_completed
  download_list_completed_lively tftp_successful raw_file s h = download_list_read_lively _ _ h
  download_list_completed_lively _ raw_file s h = do_abort_lively abort_protocol s.download_base h

  host_status_received_lively :
      (status : TftpTransferStatus) (raw_file : List ℕ) (s : DownloadOperation)
      → is_waiting s.download_base ≡ true
      → IsOngoing (host_download_status_received raw status raw_file s)
  unfolding host_download_status_received
  host_status_received_lively tftp_successful raw_file s h = host_status_read_lively _ s h
  host_status_received_lively _ raw_file s h = finished_lively _ _ s.download_base

  pub host_status_completed_lively :
      (operation : ℕ) (status : TftpTransferStatus) (raw_file : List ℕ) (s : DownloadOperation)
      → is_waiting s.download_base ≡ true
      → IsOngoing (host_download_status_completed raw operation status raw_file s)
  unfolding host_download_status_completed finished any_of
  host_status_completed_lively operation status raw_file s h =
      elim (Bool-cases ((remove operation s.download_status_operations_v).0 == 1)) [
        | inl e ↦ rw e (host_status_received_lively status raw_file _ h)
        | inr e ↦ rw e (or_true _)
      ]
