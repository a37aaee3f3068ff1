-- ===== src/Target/DownloadOperation/Preservation.antt =====
-- Each event keeps the states of the download operations whose status can be sent.
use arinc_615a_cli_tool_suit.Base.{
  All, Bool, List, [], any_of, arith, collect, length, or_left, or_true, refl, suc, true, ℕ, ◌∷◌,
  ◌≤◌,
}
use arinc_615a_cli_tool_suit.Files.DownloadListFile
use arinc_615a_cli_tool_suit.Files.DownloadListFile.{DownloadListFile}
use arinc_615a_cli_tool_suit.Files.DownloadListFile.RoundTrip.{
  IsFileInformation, decode-encode_download_list,
}
use arinc_615a_cli_tool_suit.Files.DownloadStatusFile.{empty_download_status}
use arinc_615a_cli_tool_suit.Files.DownloadStatusFile.RoundTrip.{
  IsDownloadStatus, decode-encode_download_status,
}
use arinc_615a_cli_tool_suit.Information.{DownloadFileInformation, DownloadStatus}
use arinc_615a_cli_tool_suit.RawData.{RawDataLaws, RawDataOps}
use arinc_615a_cli_tool_suit.Status.{DownloadKind, operation_accepted}
use arinc_615a_cli_tool_suit.Target.DownloadOperation.{
  TargetDownload, download_accepted, download_in_progress, download_in_progress_ratio,
  download_status_encoded, download_status_file, download_timer_handler, downloading_list,
  list_encoded, send_data_file,
}
use arinc_615a_cli_tool_suit.Target.DownloadOperation.Events.{
  TargetDownloadEvent, accepts_download, accepts_file, download_initialised, download_progresses,
  download_progresses_ratio, download_requested, download_status_sent, download_timer,
  file_received, finishes_download, finishes_file, finishes_files, handle_target_download,
  list_sent, progresses_file, sends_download_list, sends_file,
}
use arinc_615a_cli_tool_suit.Target.DownloadOperation.Ready.{
  IsReadyDownload, IsReadyFiles, IsReadyFiles-weaken, file_accepted-IsReady, file_finished-IsReady,
  file_in_progress-IsReady, files_finished-IsReady, with_download_status-IsReady,
}
use arinc_615a_cli_tool_suit.Target.DownloadOperation.Received.{
  download_received_step, list_completed_step,
}
use arinc_615a_cli_tool_suit.Target.DownloadOperation.Steps.{
  IsDownloadOutcome, IsDownloadStep, IsProperDownload, current_download_status,
  download_announced_by, download_finished_step, download_initialised_step, download_request_step,
  download_sent_step, download_status_step, download_transmit_step, download_weaken,
  receives_fatal_file,
}
use arinc_615a_cli_tool_suit.Target.Machine.{call_step, idle_step}
use arinc_615a_cli_tool_suit.Target.Operation.{
  protocol_file_operation, trigger_status_transmission_timer,
}
use arinc_615a_cli_tool_suit.Target.Operation.Pending.{
  empty-IsPlain, force_acceptance-IsStatus, increment_counter-IsPending, progress-IsTransmitted,
  set_target_status-IsPending,
}
use arinc_615a_cli_tool_suit.Target.Operation.Progress.{target_waits}
use arinc_615a_cli_tool_suit.Target.Operation.State.{progress_code, timer_run_out}
use arinc_615a_cli_tool_suit.Tftp.ClientOperation.{TimerResult, operation_aborted}

module _ (raw : RawDataOps) (laws : RawDataLaws raw) where
  pub current-IsDownloadStatus :
      (n : ℕ) (s : TargetDownload)
      → IsReadyDownload n s
      → IsDownloadStatus (record {
        version = s.target_base.protocol_version_v;
        status = current_download_status s;
      })
  current-IsDownloadStatus n s r = record {
    version = r.version;
    status = force_acceptance-IsStatus s.status_v.status r.ready.pending;
    list_ratio = r.ready.list_ratio;
    count = omega (arith, r.ready.spare);
    files = r.ready.files;
  }

  file_step :
      (n : ℕ) (w : Bool) (s : TargetDownload)
      → IsReadyDownload (suc n) s
      → IsDownloadStep raw n w (current_download_status s ∷ []) (download_status_file raw s)
  unfolding download_status_file download_status_encoded trigger_status_transmission_timer
      protocol_file_operation any_of collect
  file_step n w s r =
      let (bytes, writes, reads) =
        decode-encode_download_status raw laws empty_download_status
          (record {
            version = s.target_base.protocol_version_v;
            status = current_download_status s;
          })
          (current-IsDownloadStatus (suc n) s r) in
      rw (download_status_encoded, writes)
        (record {
          ready = record {
            version = r.version;
            ready = with_download_status-IsReady n s.status_v _ r.ready (
                increment_counter-IsPending _
                  (force_acceptance-IsStatus s.status_v.status r.ready.pending));
          };
          lively = λ _. or_left _ _ (or_true s.target_base.initialisation_operation_v);
          quiet = refl;
          carries = ((s.target_base.protocol_version_v, reads), tt);
        })

  pub download_timer_step :
      (n : ℕ) (result : TimerResult) (s : TargetDownload)
      → IsReadyDownload (suc n) s
      → IsDownloadStep raw n
          (target_waits s.target_base)
          (download_announced_by (download_timer result) s)
          (download_timer_handler raw result s)
  unfolding download_timer_handler
  download_timer_step n operation_aborted s r = idle_step _ _ _ s (download_weaken raw n s r)
  download_timer_step n _ s r =
      file_step n (target_waits s.target_base)
        (record s { target_base = timer_run_out s.target_base })
        (record { version = r.version; ready = r.ready })

  files_step :
      (n : ℕ) (s : TargetDownload) (status : DownloadStatus)
      → IsReadyDownload (suc n) s
      → IsReadyFiles n status
      → IsDownloadStep raw n (target_waits s.target_base) [] (record s { status_v = status }, [])
  files_step n s status r k =
      idle_step _ _ _ (record s { status_v = status }) (record { version = r.version; ready = k })

  list_step :
      (n : ℕ) (files : List DownloadFileInformation) (s : TargetDownload)
      → (length files ≤ 65535) × All IsFileInformation files
      → IsReadyDownload (suc n) s
      → IsDownloadStep raw n (target_waits s.target_base) [] (downloading_list raw files s)
  unfolding downloading_list list_encoded protocol_file_operation
  list_step n files s p r =
      let (bytes, writes, reads) =
        decode-encode_download_list raw laws DownloadListFile.default
          (record { version = s.target_base.protocol_version_v; files = files })
          (record { version = r.version; count = p.0; files = p.1 }) in
      rw (list_encoded, writes)
        (call_step _ _ _ (record s { list_operation_v = true }) _
          (record { version = r.version; ready = IsReadyFiles-weaken n s.status_v r.ready }) refl
          refl)

  pub download_event_step :
      (kind : DownloadKind) (n : ℕ) (e : TargetDownloadEvent) (s : TargetDownload)
      → IsProperDownload e
      → IsReadyDownload (suc n) s
      → IsDownloadOutcome raw n
          (target_waits s.target_base)
          (receives_fatal_file raw kind e)
          (download_announced_by e s)
          (handle_target_download raw kind e s)
  unfolding handle_target_download download_accepted download_in_progress download_in_progress_ratio
      send_data_file
  download_event_step kind n accepts_download s p r =
      download_status_step raw n true operation_accepted [] 0 s tt empty-IsPlain (omega arith) r
  download_event_step kind n (download_progresses immediate t d) s p r =
      download_status_step raw n immediate (progress_code d) d t s (progress-IsTransmitted d) p.1
        p.0 r
  download_event_step kind n (download_progresses_ratio immediate t d ratio) s p r =
      download_transmit_step raw n immediate _ (record {
        version = r.version;
        ready = record {
          pending =
              set_target_status-IsPending (progress_code d) d t s.status_v.status
                (progress-IsTransmitted d) p.1 p.0 r.ready.pending;
          list_ratio = p.2;
          files = r.ready.files;
          spare = omega (arith, r.ready.spare);
        };
      })
  download_event_step kind n (accepts_file name) s p r =
      files_step n s _ r (file_accepted-IsReady n name s.status_v p r.ready)
  download_event_step kind n (progresses_file name d) s p r =
      files_step n s _ r (file_in_progress-IsReady n name d s.status_v p.0 p.1 r.ready)
  download_event_step kind n (finishes_file name f d) s p r =
      files_step n s _ r (file_finished-IsReady n name f d s.status_v p.0 p.1 r.ready)
  download_event_step kind n (finishes_files f d) s p r =
      files_step n s _ r (files_finished-IsReady n f d s.status_v p r.ready)
  download_event_step kind n (finishes_download f d) s p r = download_finished_step raw n f d s p r
  download_event_step kind n (sends_file name part_number) s p r =
      call_step _ _ _ s _ (download_weaken raw n s r) refl refl
  download_event_step kind n (sends_download_list files) s p r = list_step n files s p r
  download_event_step kind n (list_sent status) s p r = list_completed_step raw n status s r
  download_event_step kind n (download_initialised status) s p r =
      download_initialised_step raw n status s (download_weaken raw n s r)
  download_event_step kind n (download_timer result) s p r = download_timer_step n result s r
  download_event_step kind n (download_status_sent sent status) s p r =
      download_sent_step raw n sent status s (download_weaken raw n s r)
  download_event_step kind n (download_requested address t filename) s p r =
      download_request_step raw n kind address t filename s (download_weaken raw n s r)
  download_event_step kind n (file_received status raw_file) s p r =
      download_received_step raw laws n kind status raw_file s r
