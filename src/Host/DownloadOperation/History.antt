-- ===== src/Host/DownloadOperation/History.antt =====
-- The download operations of the host under any sequence of events. A call that the handler makes while
-- it is called is an event of its own.
use arinc_615a_cli_tool_suit.Base.{
  List, or_left, refl, run_events, run_events_waits, true, ℕ, ◌||◌, ◌≡◌,
}
use arinc_615a_cli_tool_suit.Host.DownloadOperation.{
  DownloadOperation, DownloadOutcome, answer_download, download_file_completed,
  download_list_completed, download_tftp_request, host_download_status_completed, request_download,
  start_download, with_host_download_base,
}
use arinc_615a_cli_tool_suit.Host.DownloadOperation.Progress.{
  IsOngoing, answer_download_lively, download_file_completed_lively, download_list_completed_lively,
  download_tftp_request_lively, host_status_completed_lively, request_download_lively,
}
use arinc_615a_cli_tool_suit.Host.Operation.{
  AbortReason, do_abort, do_terminate, initialisation_file_completed, initialisation_file_deferred,
  initialise, timer_handler,
}
use arinc_615a_cli_tool_suit.Host.Operation.Progress.{
  do_abort_lively, do_terminate_lively, has_finished, initialisation_lively, is_finish, is_waiting,
  timer_handler_lively,
}
use arinc_615a_cli_tool_suit.RawData.{RawDataOps}
use arinc_615a_cli_tool_suit.Status.{DownloadKind}
use arinc_615a_cli_tool_suit.Tftp.{RequestType, TftpTransferStatus, TransferStatus}
use arinc_615a_cli_tool_suit.Tftp.ClientOperation.{TimerResult}

pub data DownloadEvent : Type 0 where
  download_abort download_terminate : AbortReason → DownloadEvent
  download_initialisation : TransferStatus → List ℕ → DownloadEvent
  requests_download : List (List ℕ) → List ℕ → DownloadEvent
  answers_download : List (List ℕ) → DownloadEvent
  download_file_completion : TransferStatus → DownloadEvent
  download_server_request : RequestType → List ℕ → ℕ → DownloadEvent
  download_status_completion : ℕ → TftpTransferStatus → List ℕ → DownloadEvent
  download_list_completion : TftpTransferStatus → List ℕ → DownloadEvent
  download_deferral : ℕ → DownloadEvent
  download_timer_result : TimerResult → DownloadEvent

module _ (raw : RawDataOps) (kind : DownloadKind) where
  unfoldable pub handle_download_event : DownloadEvent → DownloadOperation → DownloadOutcome
  handle_download_event (download_abort reason) s =
      with_host_download_base s (do_abort reason s.download_base)
  handle_download_event (download_terminate reason) s =
      with_host_download_base s (do_terminate reason s.download_base)
  handle_download_event (download_initialisation status raw_file) s =
      with_host_download_base s (initialisation_file_completed raw status raw_file s.download_base)
  handle_download_event (requests_download files user_defined_data) s =
      request_download raw files user_defined_data s
  handle_download_event (answers_download files) s = answer_download raw files s
  handle_download_event (download_file_completion status) s = download_file_completed status s
  handle_download_event (download_server_request request_type filename operation) s =
      download_tftp_request kind request_type filename operation s
  handle_download_event (download_status_completion operation status raw_file) s =
      host_download_status_completed raw operation status raw_file s
  handle_download_event (download_list_completion status raw_file) s =
      download_list_completed raw status raw_file s
  handle_download_event (download_deferral wait_time) s =
      with_host_download_base s (initialisation_file_deferred wait_time s.download_base)
  handle_download_event (download_timer_result result) s =
      with_host_download_base s (timer_handler result s.download_base)

module _ (raw : RawDataOps) (kind : DownloadKind) where
  download_event_lively :
      (e : DownloadEvent) (s : DownloadOperation)
      → is_waiting s.download_base ≡ true
      → IsOngoing (handle_download_event raw kind e s)
  unfolding handle_download_event initialisation_file_deferred
  download_event_lively (download_abort reason) s h = do_abort_lively reason s.download_base h
  download_event_lively (download_terminate reason) s h = do_terminate_lively reason s.download_base
  download_event_lively (download_initialisation status raw_file) s h =
      initialisation_lively raw status raw_file s.download_base
  download_event_lively (requests_download files user_defined_data) s h =
      request_download_lively raw files user_defined_data s h
  download_event_lively (answers_download files) s h = answer_download_lively raw files s h
  download_event_lively (download_file_completion status) s h =
      download_file_completed_lively status s h
  download_event_lively (download_server_request t filename operation) s h =
      download_tftp_request_lively kind t filename operation s h
  download_event_lively (download_status_completion operation status raw_file) s h =
      host_status_completed_lively raw operation status raw_file s h
  download_event_lively (download_list_completion status raw_file) s h =
      download_list_completed_lively raw status raw_file s h
  download_event_lively (download_deferral wait_time) s h = or_left _ _ h
  download_event_lively (download_timer_result result) s h =
      timer_handler_lively result s.download_base h

  -- A download, media or operator defined, that was started has its initialisation in progress or its
  -- timer armed after any sequence of events, unless the user was told that it is finished.
  pub started_download_waits_or_has_finished :
      (events : List DownloadEvent) (s : DownloadOperation)
      → let outcome =
          run_events (handle_download_event raw kind) events (start_download kind s).0 in
        is_waiting outcome.0.download_base || has_finished outcome.1 ≡ true
  unfolding start_download initialise
  started_download_waits_or_has_finished events s =
      run_events_waits (handle_download_event raw kind) (λ s. is_waiting s.download_base) is_finish
        download_event_lively events (start_download kind s).0 refl
