-- ===== src/Tests/Exchange.antt =====
-- The target and the host together at concrete data.
use arinc_615a_cli_tool_suit.Base.{[], arith, collect, length, refl, run_events, true, ◌∷◌, ◌≡◌}
use arinc_615a_cli_tool_suit.Exchange.Counters.{CountsFrom, statuses_are_numbered}
use arinc_615a_cli_tool_suit.Exchange.DownloadStatus.{
  IsReceptive, deliver_download, download_status_of, host_hears_download,
}
use arinc_615a_cli_tool_suit.Exchange.FinalStatus.{final_status_reaches_host}
use arinc_615a_cli_tool_suit.Exchange.Information.{
  IsAttentive, deliver_hardware, deliver_status, hardware_file_of, hardware_reaches_host,
  host_hears_information, status_told,
}
use arinc_615a_cli_tool_suit.Exchange.UploadStatus.{
  IsListening, deliver_all, host_hears_target, reported,
}
use arinc_615a_cli_tool_suit.Host.Operation.{
  finishes, given, no_description, receives_list, receives_status, reports_hardware,
  reports_upload_status, stops_server,
}
use arinc_615a_cli_tool_suit.RawData.BigEndian.{big_endian, big_endian-RawDataLaws}
use arinc_615a_cli_tool_suit.Status.{
  final_aborted_by_operator, final_completed, operation_aborted_by_operator, operation_completed,
  operator_defined,
}
use arinc_615a_cli_tool_suit.Target.DownloadOperation.Events.{handle_target_download}
use arinc_615a_cli_tool_suit.Target.DownloadOperation.History.{download_machine}
use arinc_615a_cli_tool_suit.Target.InformationOperation.{
  target_information, target_information_completed, target_information_encoded,
}
use arinc_615a_cli_tool_suit.Target.InformationOperation.Events.{handle_target_information}
use arinc_615a_cli_tool_suit.Target.InformationOperation.History.{information_machine}
use arinc_615a_cli_tool_suit.Target.Machine.{announced}
use arinc_615a_cli_tool_suit.Target.Operation.{protocol_file_operation, reports_end, reports_sent}
use arinc_615a_cli_tool_suit.Target.Operation.Progress.{status_files}
use arinc_615a_cli_tool_suit.Target.UploadOperation.{
  upload_finished, upload_status_file_completed, upload_timer_handler,
}
use arinc_615a_cli_tool_suit.Target.UploadOperation.Events.{run_target_upload}
use arinc_615a_cli_tool_suit.Target.UploadOperation.History.{upload_machine}
use arinc_615a_cli_tool_suit.Target.UploadOperation.Ready.{IsReadyUpload}
use arinc_615a_cli_tool_suit.Target.UploadOperation.Steps.{current_status}
use arinc_615a_cli_tool_suit.Tests.Configurations.{
  configuration_bytes, configuration_list, configuration_list-IsLoadConfigurationList,
  configuration_list_bytes,
}
use arinc_615a_cli_tool_suit.Tests.Files.{plain_abc, text_abc}
use arinc_615a_cli_tool_suit.Tests.HostDownloads.{idle_download}
use arinc_615a_cli_tool_suit.Tests.HostOperations.{idle_host}
use arinc_615a_cli_tool_suit.Tests.Targets.{
  target_download-IsReady, target_download_events, target_download_events-IsProper,
  target_download_state, target_information-IsReady, target_information_events,
  target_information_events-IsProper, target_information_state, target_upload-IsReady,
  target_upload_events, target_upload_events-IsProper, target_upload_state, unset-IsPending,
}
use arinc_615a_cli_tool_suit.Tests.Uploads.{idle_upload}
use arinc_615a_cli_tool_suit.Tftp.{successful}
use arinc_615a_cli_tool_suit.Tftp.ClientOperation.{expired}

idle_upload-IsListening : IsListening idle_upload
idle_upload-IsListening = record { not_aborted = refl; none_running = refl }

host_hears_target_example :
    reported
      (deliver_all big_endian
        (status_files (run_target_upload big_endian target_upload_events target_upload_state).1)
        idle_upload).1
    ≡ announced
        (upload_machine big_endian big_endian-RawDataLaws)
        target_upload_events
        target_upload_state
host_hears_target_example =
    host_hears_target big_endian big_endian-RawDataLaws target_upload_events target_upload_state
      idle_upload target_upload_events-IsProper target_upload-IsReady idle_upload-IsListening

-- Two statuses are announced.
two_are_announced :
    length (
      announced
        (upload_machine big_endian big_endian-RawDataLaws)
        target_upload_events
        target_upload_state)
    ≡ 2
unfolding announced
two_are_announced = refl

statuses_are_numbered_example : CountsFrom 0 (
    announced
      (upload_machine big_endian big_endian-RawDataLaws)
      target_upload_events
      target_upload_state)
statuses_are_numbered_example =
    statuses_are_numbered big_endian big_endian-RawDataLaws target_upload_events target_upload_state
      target_upload_events-IsProper target_upload-IsReady

target_upload_has_room : IsReadyUpload 2 target_upload_state
target_upload_has_room = record {
  version = tt;
  ready = record {
    pending = unset-IsPending;
    list_ratio = omega arith;
    loads = tt;
    spare = omega arith;
  };
}

final_status_reaches_host_example :
    let t' = upload_finished final_aborted_by_operator text_abc target_upload_state in
    let sent = upload_timer_handler big_endian expired t' in
    ((deliver_all big_endian (status_files sent.1) idle_upload).1
      ≡ receives_status
        ∷ reports_upload_status (current_status t')
        ∷ finishes operation_aborted_by_operator (given text_abc)
        ∷ stops_server
        ∷ [])
    × ((upload_status_file_completed (current_status t') successful sent.0).1
        ≡ reports_sent (current_status t').status
          ∷ reports_end final_aborted_by_operator text_abc
          ∷ [])
final_status_reaches_host_example =
    final_status_reaches_host big_endian big_endian-RawDataLaws final_aborted_by_operator text_abc
      target_upload_state idle_upload plain_abc target_upload_has_room idle_upload-IsListening

idle_host-IsAttentive : IsAttentive idle_host
idle_host-IsAttentive = record { not_aborted = refl; none_running = refl }

host_hears_information_example :
    collect status_told
      (run_events
        (deliver_status big_endian)
        (status_files
          (run_events
            (handle_target_information big_endian)
            target_information_events
            target_information_state).1)
        idle_host).1
    ≡ announced
        (information_machine big_endian big_endian-RawDataLaws)
        target_information_events
        target_information_state
host_hears_information_example =
    host_hears_information big_endian big_endian-RawDataLaws target_information_events
      target_information_state idle_host target_information_events-IsProper
      target_information-IsReady idle_host-IsAttentive

hardware_file_sent :
    collect hardware_file_of
      (target_information big_endian configuration_list.targets_hardware target_information_state).1
    ≡ configuration_bytes ∷ []
unfolding target_information target_information_encoded protocol_file_operation collect
hardware_file_sent = rw (target_information_encoded, configuration_list_bytes) refl

hardware_reaches_host_example :
    let hardware = configuration_list.targets_hardware in
    ((deliver_hardware big_endian true configuration_bytes idle_host).1
      ≡ receives_list
        ∷ reports_hardware hardware true
        ∷ finishes operation_completed no_description
        ∷ stops_server
        ∷ [])
    × ((target_information_completed big_endian successful
          (target_information big_endian hardware target_information_state).0).1
        ≡ reports_end final_completed [] ∷ [])
hardware_reaches_host_example =
    hardware_reaches_host big_endian big_endian-RawDataLaws configuration_list.targets_hardware true
      target_information_state idle_host configuration_bytes
      configuration_list-IsLoadConfigurationList hardware_file_sent (omega arith) (omega arith) refl
      refl refl

idle_download-IsReceptive : IsReceptive idle_download
idle_download-IsReceptive = record { not_aborted = refl; none_running = refl }

host_hears_download_example :
    collect download_status_of
      (run_events
        (deliver_download big_endian)
        (status_files
          (run_events
            (handle_target_download big_endian operator_defined)
            target_download_events
            target_download_state).1)
        idle_download).1
    ≡ announced
        (download_machine big_endian big_endian-RawDataLaws operator_defined)
        target_download_events
        target_download_state
host_hears_download_example =
    host_hears_download big_endian big_endian-RawDataLaws operator_defined target_download_events
      target_download_state idle_download target_download_events-IsProper target_download-IsReady
      idle_download-IsReceptive
