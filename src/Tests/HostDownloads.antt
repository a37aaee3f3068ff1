-- ===== src/Tests/HostDownloads.antt =====
-- The download operations of the host at concrete data.
use arinc_615a_cli_tool_suit.Base.{List, [], false, run_events, true, ◌||◌, ◌∷◌, ◌≡◌}
use arinc_615a_cli_tool_suit.Host.DownloadOperation.{DownloadOperation, start_download}
use arinc_615a_cli_tool_suit.Host.DownloadOperation.History.{
  DownloadEvent, answers_download, download_file_completion, download_initialisation,
  download_server_request, download_timer_result, handle_download_event,
  started_download_waits_or_has_finished,
}
use arinc_615a_cli_tool_suit.Host.Operation.Progress.{has_finished, is_waiting}
use arinc_615a_cli_tool_suit.ProtocolFilename.{filename_to_string, operator_defined_download_list}
use arinc_615a_cli_tool_suit.RawData.BigEndian.{big_endian}
use arinc_615a_cli_tool_suit.Status.{operator_defined}
use arinc_615a_cli_tool_suit.Tests.Files.{text_abc}
use arinc_615a_cli_tool_suit.Tests.Uploads.{accepted_upload, idle_upload, upload_target}
use arinc_615a_cli_tool_suit.Tftp.{communication_error, successful, write_request}
use arinc_615a_cli_tool_suit.Tftp.ClientOperation.{expired}

abbrev pub idle_download : DownloadOperation
idle_download = record {
  download_base = idle_upload.upload_base;
  download_status_operations_v = [];
  sent_v = false;
  send_operation_v = false;
  download_list_operation_v = false;
}

-- The list of files is answered, and the answer cannot be sent.
abbrev host_download_events : List DownloadEvent
host_download_events =
    download_initialisation successful accepted_upload
    ∷ download_server_request write_request
        (filename_to_string
          (record { target_id = upload_target; file_type = operator_defined_download_list }))
        0
    ∷ answers_download (text_abc ∷ [])
    ∷ download_file_completion communication_error
    ∷ download_timer_result expired
    ∷ []

started_download_waits_or_has_finished_example :
    let outcome =
      run_events
        (handle_download_event big_endian operator_defined)
        host_download_events
        (start_download operator_defined idle_download).0 in
    is_waiting outcome.0.download_base || has_finished outcome.1 ≡ true
started_download_waits_or_has_finished_example =
    started_download_waits_or_has_finished big_endian operator_defined host_download_events
      idle_download
