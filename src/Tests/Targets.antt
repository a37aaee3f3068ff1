-- ===== src/Tests/Targets.antt =====
-- The operations of the target at concrete data.
use arinc_615a_cli_tool_suit.Base.{
  All, List, [], any_of, arith, decode_many, false, none, refl, run_events, some, true, ◌||◌, ◌∷◌,
  ◌≡◌,
}
use arinc_615a_cli_tool_suit.Files.DownloadRequestFile
use arinc_615a_cli_tool_suit.Files.DownloadRequestFile.{DownloadRequestFile}
use arinc_615a_cli_tool_suit.Files.Header.{decode_header, protocol_version}
use arinc_615a_cli_tool_suit.Files.Strings.{string_decode}
use arinc_615a_cli_tool_suit.Information.{Status}
use arinc_615a_cli_tool_suit.RawData.BigEndian.{big_endian, big_endian-RawDataLaws}
use arinc_615a_cli_tool_suit.Status.{
  arinc_615a_34, final_aborted_by_target_hardware, invalid_status, media_defined, operator_defined,
}
use arinc_615a_cli_tool_suit.Target.DownloadOperation.{TargetDownload}
use arinc_615a_cli_tool_suit.Target.DownloadOperation.Events.{
  TargetDownloadEvent, download_initialised, download_timer, handle_target_download,
  progresses_file, sends_download_list,
}
use arinc_615a_cli_tool_suit.Target.DownloadOperation.History.{target_download_waits_or_has_ended}
use arinc_615a_cli_tool_suit.Target.DownloadOperation.Ready.{IsReadyDownload}
use arinc_615a_cli_tool_suit.Target.DownloadOperation.Steps.{
  IsProperDownload, is_fatal, receives_fatal_file,
}
use arinc_615a_cli_tool_suit.Target.InformationOperation.{TargetInformation}
use arinc_615a_cli_tool_suit.Target.InformationOperation.Events.{
  TargetInformationEvent, accepts_information, handle_target_information, hardware_sent,
  information_initialised, sends_hardware,
}
use arinc_615a_cli_tool_suit.Target.InformationOperation.History.{
  target_information_waits_or_has_ended,
}
use arinc_615a_cli_tool_suit.Target.InformationOperation.Steps.{
  IsProperInformation, IsReadyInformation,
}
use arinc_615a_cli_tool_suit.Target.Operation.{TargetOperation, do_start}
use arinc_615a_cli_tool_suit.Target.Operation.Pending.{IsPending}
use arinc_615a_cli_tool_suit.Target.Operation.Progress.{has_ended, has_thrown, target_waits}
use arinc_615a_cli_tool_suit.Target.UploadOperation.{TargetUpload}
use arinc_615a_cli_tool_suit.Target.UploadOperation.Events.{
  TargetUploadEvent, accepts, accepts_load, finishes_upload, initialisation_sent, run_target_upload,
  transmission_timer,
}
use arinc_615a_cli_tool_suit.Target.UploadOperation.History.{target_upload_waits_or_has_ended}
use arinc_615a_cli_tool_suit.Target.UploadOperation.Ready.{IsReadyUpload}
use arinc_615a_cli_tool_suit.Target.UploadOperation.Steps.{IsProperUpload}
use arinc_615a_cli_tool_suit.Tests.Configurations.{
  configuration_list, configuration_list-IsLoadConfigurationList,
}
use arinc_615a_cli_tool_suit.Tests.Files.{plain_abc, plain_xyz, text_abc, text_xyz}
use arinc_615a_cli_tool_suit.Tests.Uploads.{upload_target}
use arinc_615a_cli_tool_suit.Tftp.{communication_error, tftp_successful}
use arinc_615a_cli_tool_suit.Tftp.ClientOperation.{expired}

abbrev pub target_state : TargetOperation
target_state = record {
  protocol_version_v = arinc_615a_34;
  target_id_v = upload_target;
  status_transmission_rate_v = 1;
  host_address_v = 0;
  host_port_v = 59;
  status_transmission_timer_v = none;
  initialisation_operation_v = false;
}

-- A status that was never set.
abbrev pub unset_status : Status
unset_status = record {
  counter = 0;
  code = invalid_status;
  description = [];
  exception_timer = 0;
  estimated_time = 0;
}

pub unset-IsPending : IsPending unset_status
unset-IsPending = record {
  counter = omega arith;
  exception_timer = omega arith;
  estimated_time = omega arith;
  code = tt;
  description = record { text = tt; short = omega arith };
}

abbrev pub target_upload_state : TargetUpload
target_upload_state = record {
  target_base = target_state;
  status_v = record { status = unset_status; list_ratio = record { value = 0 }; loads = [] };
  status_operation_v = false;
  request_file_operation_v = false;
}

pub target_upload-IsReady : IsReadyUpload 6 target_upload_state
target_upload-IsReady = record {
  version = tt;
  ready = record {
    pending = unset-IsPending;
    list_ratio = omega arith;
    loads = tt;
    spare = omega arith;
  };
}

-- The status is sent twice: as it is when the request comes, and when a load is accepted and the upload
-- has failed.
abbrev pub target_upload_events : List TargetUploadEvent
target_upload_events =
    initialisation_sent tftp_successful
    ∷ transmission_timer expired
    ∷ accepts_load text_abc text_xyz
    ∷ accepts
    ∷ finishes_upload final_aborted_by_target_hardware text_abc
    ∷ transmission_timer expired
    ∷ []

pub target_upload_events-IsProper : All IsProperUpload target_upload_events
target_upload_events-IsProper = (tt, (tt, ((plain_abc, plain_xyz), (tt, (plain_abc, (tt, tt))))))

target_upload_waits_or_has_ended_example :
    let started = do_start big_endian 7 none target_state in
    let outcome =
      run_target_upload big_endian target_upload_events
        (record target_upload_state { target_base = started.0 }) in
    (target_waits outcome.0.target_base || has_ended outcome.1 ≡ true)
    × (has_thrown outcome.1 ≡ false)
target_upload_waits_or_has_ended_example =
    target_upload_waits_or_has_ended big_endian big_endian-RawDataLaws target_upload_events
      target_upload_state 7 none target_upload_events-IsProper target_upload-IsReady

abbrev pub target_download_state : TargetDownload
target_download_state = record {
  target_base = target_state;
  status_v = record { status = unset_status; list_ratio = record { value = 0 }; files = [] };
  status_operation_v = false;
  received_file_operation_v = false;
  list_operation_v = false;
}

pub target_download-IsReady : IsReadyDownload 4 target_download_state
target_download-IsReady = record {
  version = tt;
  ready = record {
    pending = unset-IsPending;
    list_ratio = omega arith;
    files = tt;
    spare = omega arith;
  };
}

abbrev pub target_download_events : List TargetDownloadEvent
target_download_events =
    download_initialised tftp_successful
    ∷ progresses_file text_abc text_xyz
    ∷ sends_download_list (record { filename = text_abc; description = text_xyz } ∷ [])
    ∷ download_timer expired
    ∷ []

pub target_download_events-IsProper : All IsProperDownload target_download_events
target_download_events-IsProper = (
  tt,
  (
    (plain_abc, plain_xyz),
    ((omega arith, (record { filename = plain_abc; description = plain_xyz }, tt)), (tt, tt)),
  ),
)

target_download_waits_or_has_ended_example :
    let started = do_start big_endian 7 (some 1059) target_state in
    let outcome =
      run_events
        (handle_target_download big_endian operator_defined)
        target_download_events
        (record target_download_state { target_base = started.0 }) in
    (target_waits outcome.0.target_base || has_ended outcome.1 ≡ true)
    × (has_thrown outcome.1
        ≡ any_of (receives_fatal_file big_endian operator_defined) target_download_events)
target_download_waits_or_has_ended_example =
    target_download_waits_or_has_ended big_endian big_endian-RawDataLaws operator_defined
      target_download_events target_download_state 7 (some 1059) target_download_events-IsProper
      target_download-IsReady

-- A request for one file with an empty name, which ends where the length of the user-defined data
-- should stand.
short_request_file :
    is_fatal big_endian media_defined (0 ∷ 0 ∷ 0 ∷ 9 ∷ 65 ∷ 52 ∷ 0 ∷ 1 ∷ 0 ∷ []) ≡ true
unfolding DownloadRequestFile.decode decode_header decode_many string_decode protocol_version
short_request_file = refl

abbrev pub target_information_state : TargetInformation
target_information_state = record {
  target_base = target_state;
  status_v = unset_status;
  status_operation_v = false;
  list_operation_v = false;
}

pub target_information-IsReady : IsReadyInformation target_information_state
target_information-IsReady = record { version = tt; pending = unset-IsPending }

-- The list of hardware cannot be sent.
abbrev pub target_information_events : List TargetInformationEvent
target_information_events =
    information_initialised tftp_successful
    ∷ accepts_information
    ∷ sends_hardware configuration_list.targets_hardware
    ∷ hardware_sent communication_error
    ∷ []

pub target_information_events-IsProper : All IsProperInformation target_information_events
target_information_events-IsProper =
    let sendable = configuration_list-IsLoadConfigurationList in
    (tt, (tt, ((sendable.count, sendable.targets_hardware), (tt, tt))))

target_information_waits_or_has_ended_example :
    let started = do_start big_endian 7 none target_state in
    let outcome =
      run_events
        (handle_target_information big_endian)
        target_information_events
        (record target_information_state { target_base = started.0 }) in
    (target_waits outcome.0.target_base || has_ended outcome.1 ≡ true)
    × (has_thrown outcome.1 ≡ false)
target_information_waits_or_has_ended_example =
    target_information_waits_or_has_ended big_endian big_endian-RawDataLaws
      target_information_events target_information_state 7 none target_information_events-IsProper
      target_information-IsReady
