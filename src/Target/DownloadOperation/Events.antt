-- ===== src/Target/DownloadOperation/Events.antt =====
-- The download operations of the target under any sequence of events. A call that the handler makes
-- while it is called is an event of its own.
use arinc_615a_cli_tool_suit.Base.{Bool, List, [], ℕ}
use arinc_615a_cli_tool_suit.Files.Ratio.{Ratio}
use arinc_615a_cli_tool_suit.Information.{DownloadFileInformation, DownloadStatus}
use arinc_615a_cli_tool_suit.RawData.{RawDataOps}
use arinc_615a_cli_tool_suit.Status.{DownloadKind, FinalStatus}
use arinc_615a_cli_tool_suit.Target.DownloadOperation.{
  TargetDownload, TargetDownloadOutcome, download_accepted, download_file_received,
  download_finished, download_in_progress, download_in_progress_ratio, download_request,
  download_status_file_completed, download_timer_handler, downloading_list,
  downloading_list_completed, send_data_file, with_download_base,
}
use arinc_615a_cli_tool_suit.Target.DownloadOperation.Parts.{
  file_accepted, file_finished, file_in_progress, files_finished,
}
use arinc_615a_cli_tool_suit.Target.Operation.{send_init_file_complete}
use arinc_615a_cli_tool_suit.Tftp.{RequestType, TftpTransferStatus, TransferStatus}
use arinc_615a_cli_tool_suit.Tftp.ClientOperation.{TimerResult}

pub data TargetDownloadEvent : Type 0 where
  accepts_download : TargetDownloadEvent
  download_progresses : Bool → ℕ → List ℕ → TargetDownloadEvent
  download_progresses_ratio : Bool → ℕ → List ℕ → Ratio → TargetDownloadEvent
  accepts_file : List ℕ → TargetDownloadEvent
  progresses_file : List ℕ → List ℕ → TargetDownloadEvent
  finishes_file : List ℕ → FinalStatus → List ℕ → TargetDownloadEvent
  finishes_files finishes_download : FinalStatus → List ℕ → TargetDownloadEvent
  sends_file : List ℕ → List ℕ → TargetDownloadEvent
  sends_download_list : List DownloadFileInformation → TargetDownloadEvent
  list_sent : TransferStatus → TargetDownloadEvent
  download_initialised : TftpTransferStatus → TargetDownloadEvent
  download_timer : TimerResult → TargetDownloadEvent
  download_status_sent : DownloadStatus → TransferStatus → TargetDownloadEvent
  download_requested : ℕ → RequestType → List ℕ → TargetDownloadEvent
  file_received : TftpTransferStatus → List ℕ → TargetDownloadEvent

module _ (raw : RawDataOps) (kind : DownloadKind) where
  unfoldable pub handle_target_download :
      TargetDownloadEvent → TargetDownload → TargetDownloadOutcome
  handle_target_download accepts_download s = (download_accepted s, [])
  handle_target_download (download_progresses immediate estimated_time description) s =
      (download_in_progress immediate estimated_time description s, [])
  handle_target_download (download_progresses_ratio immediate estimated_time description ratio) s =
      (download_in_progress_ratio immediate estimated_time description ratio s, [])
  handle_target_download (accepts_file filename) s =
      (record s { status_v = file_accepted filename s.status_v }, [])
  handle_target_download (progresses_file filename description) s =
      (record s { status_v = file_in_progress filename description s.status_v }, [])
  handle_target_download (finishes_file filename status description) s =
      (record s { status_v = file_finished filename status description s.status_v }, [])
  handle_target_download (finishes_files status description) s =
      (record s { status_v = files_finished status description s.status_v }, [])
  handle_target_download (finishes_download status description) s =
      (download_finished status description s, [])
  handle_target_download (sends_file filename part_number) s = send_data_file filename part_number s
  handle_target_download (sends_download_list files) s = downloading_list raw files s
  handle_target_download (list_sent status) s = (downloading_list_completed status s, [])
  handle_target_download (download_initialised status) s =
      with_download_base s (send_init_file_complete status s.target_base)
  handle_target_download (download_timer result) s = download_timer_handler raw result s
  handle_target_download (download_status_sent sent status) s =
      download_status_file_completed sent status s
  handle_target_download (download_requested address request_type filename) s =
      download_request kind address request_type filename s
  handle_target_download (file_received status raw_file) s =
      download_file_received raw kind status raw_file s
