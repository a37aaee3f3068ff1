-- ===== src/Tests/Requests.antt =====
-- The start of an operation, and what the users choose, at concrete data.
use arinc_615a_cli_tool_suit.Base.{
  List, [], arith, collect, false, none, refl, some, true, ℕ, ◌∷◌, ◌≡◌,
}
use arinc_615a_cli_tool_suit.Exchange.Initialisation.{
  acceptance_reaches_host, at_target, each_start_reaches_target, initialisation_of,
  refusal_reaches_host,
}
use arinc_615a_cli_tool_suit.Exchange.Names.{protocol_name}
use arinc_615a_cli_tool_suit.Exchange.Requests.{
  answer_reaches_target, download_list_of, download_list_reaches_host,
  download_request_reaches_target, load_list_reaches_target,
}
use arinc_615a_cli_tool_suit.Host.DownloadOperation.{
  answer_download, download_list_completed, request_download, start_download,
}
use arinc_615a_cli_tool_suit.Host.InformationOperation.{start_information}
use arinc_615a_cli_tool_suit.Host.Operation.{
  HostAction, finishes, given, initialisation_file_completed, reports_download_list,
  reports_response, sends_download_file, sends_load_list, stops_server, trigger_dlp_timeout,
}
use arinc_615a_cli_tool_suit.Host.UploadOperation.{load_list, start_upload}
use arinc_615a_cli_tool_suit.Information.{DownloadFileInformation, UploadLoad}
use arinc_615a_cli_tool_suit.ProtocolFilename.{
  media_defined_download_request, operator_defined_download_answer, upload_request,
}
use arinc_615a_cli_tool_suit.RawData.BigEndian.{big_endian, big_endian-RawDataLaws}
use arinc_615a_cli_tool_suit.Status.{
  acceptance_status, accepted, arinc_615a_34, denied, information_operation, media_defined,
  media_defined_download_operation, operator_defined, operator_defined_download_operation,
  upload_operation,
}
use arinc_615a_cli_tool_suit.Target.DownloadOperation.{download_file_received, downloading_list}
use arinc_615a_cli_tool_suit.Target.ErrorOperation.{ErrorOperation, start_error}
use arinc_615a_cli_tool_suit.Target.Operation.{
  do_start, reports_answer, reports_loads, reports_request,
}
use arinc_615a_cli_tool_suit.Target.Protocol.{ProtocolAction, TargetProtocol, starts_operation}
use arinc_615a_cli_tool_suit.Target.UploadOperation.{request_file_completed}
use arinc_615a_cli_tool_suit.TargetId.{
  all_alnum, is_compliant, is_position, is_thw_id, target_id_is_valid,
}
use arinc_615a_cli_tool_suit.Tests.Files.{plain_abc, plain_xyz, text_abc, text_xyz}
use arinc_615a_cli_tool_suit.Tests.HostDownloads.{idle_download}
use arinc_615a_cli_tool_suit.Tests.HostOperations.{idle_host}
use arinc_615a_cli_tool_suit.Tests.Targets.{
  target_download_state, target_state, target_upload_state,
}
use arinc_615a_cli_tool_suit.Tests.Uploads.{idle_upload, upload_target}
use arinc_615a_cli_tool_suit.Tftp.{successful, tftp_successful}

abbrev protocol_state : TargetProtocol
protocol_state = record { protocol_version_v = arinc_615a_34; operation_v = false }

upload_target_valid : target_id_is_valid upload_target ≡ true
unfolding target_id_is_valid is_thw_id is_position is_compliant all_alnum
upload_target_valid = refl

each_start_reaches_target_example :
    let received : List HostAction → List ProtocolAction =
      collect (at_target (some 1059) protocol_state) in
    (received (start_information idle_host).1
      ≡ starts_operation information_operation (some 1059) upload_target ∷ [])
    × (received (start_upload idle_upload).1
        ≡ starts_operation upload_operation (some 1059) upload_target ∷ [])
    × (received (start_download media_defined idle_download).1
        ≡ starts_operation media_defined_download_operation (some 1059) upload_target ∷ [])
    × (received (start_download operator_defined idle_download).1
        ≡ starts_operation operator_defined_download_operation (some 1059) upload_target ∷ [])
each_start_reaches_target_example =
    each_start_reaches_target idle_host idle_upload idle_download (some 1059) protocol_state
      upload_target_valid upload_target_valid upload_target_valid

acceptance_reaches_host_example :
    (file : List ℕ) × (collect initialisation_of (do_start big_endian 7 none target_state).1
      ≡ file ∷ [])
    × (initialisation_file_completed big_endian successful file idle_upload.upload_base ≡ (
      trigger_dlp_timeout 0 (record idle_upload.upload_base {
        initialisation_operation_v = false;
        protocol_version_v = arinc_615a_34;
      }),
      reports_response (record { code = accepted; description = [] }) ∷ [],
    ))
acceptance_reaches_host_example =
    acceptance_reaches_host big_endian big_endian-RawDataLaws 7 none target_state
      idle_upload.upload_base tt

abbrev denial : ErrorOperation
denial = record {
  protocol_version_v = arinc_615a_34;
  refusal_code = denied;
  refusal_description = text_abc;
  has_completion_handler = true;
  initialisation_file_operation_v = false;
}

refusal_reaches_host_example :
    (file : List ℕ) × (collect initialisation_of (start_error big_endian none denial).1 ≡ file ∷ [])
    × ((initialisation_file_completed big_endian successful file idle_upload.upload_base).1
        ≡ reports_response (record { code = denied; description = text_abc })
          ∷ finishes (acceptance_status denied) (given text_abc)
          ∷ stops_server
          ∷ [])
refusal_reaches_host_example =
    refusal_reaches_host big_endian big_endian-RawDataLaws none denial idle_upload.upload_base tt tt
      plain_abc

abbrev chosen_loads : List UploadLoad
chosen_loads = record { header_filename = text_abc; part_number = text_xyz } ∷ []

load_list_reaches_target_example :
    (file : List ℕ) × ((load_list big_endian chosen_loads idle_upload).1
      ≡ sends_load_list (protocol_name upload_target upload_request) file ∷ [])
    × ((request_file_completed big_endian tftp_successful file target_upload_state).1
        ≡ reports_loads chosen_loads ∷ [])
load_list_reaches_target_example =
    load_list_reaches_target big_endian big_endian-RawDataLaws chosen_loads idle_upload
      target_upload_state
      (record {
        version = tt;
        count = omega arith;
        loads = (record { header_filename = plain_abc; part_number = plain_xyz }, tt);
      })
      refl refl

abbrev offered_files : List DownloadFileInformation
offered_files = record { filename = text_abc; description = text_xyz } ∷ []

download_list_reaches_host_example :
    (file : List ℕ) × (collect download_list_of
        (downloading_list big_endian offered_files target_download_state).1
      ≡ file ∷ [])
    × ((download_list_completed big_endian tftp_successful file idle_download).1
        ≡ reports_download_list offered_files ∷ [])
download_list_reaches_host_example =
    download_list_reaches_host big_endian big_endian-RawDataLaws offered_files target_download_state
      idle_download
      (record {
        version = tt;
        count = omega arith;
        files = (record { filename = plain_abc; description = plain_xyz }, tt);
      })

abbrev chosen_files : List (List ℕ)
chosen_files = text_abc ∷ text_xyz ∷ []

answer_reaches_target_example :
    (file : List ℕ) × ((answer_download big_endian chosen_files idle_download).1
      ≡ sends_download_file (protocol_name upload_target operator_defined_download_answer) file
        ∷ [])
    × ((download_file_received big_endian operator_defined tftp_successful file
          target_download_state).1
        ≡ reports_answer chosen_files ∷ [])
answer_reaches_target_example =
    answer_reaches_target big_endian big_endian-RawDataLaws chosen_files idle_download
      target_download_state
      (record { version = tt; count = omega arith; files = (plain_abc, (plain_xyz, tt)) }) refl refl

download_request_reaches_target_example :
    (file : List ℕ) × ((request_download big_endian chosen_files (1 ∷ 2 ∷ []) idle_download).1
      ≡ sends_download_file (protocol_name upload_target media_defined_download_request) file ∷ [])
    × ((download_file_received big_endian media_defined tftp_successful file
          target_download_state).1
        ≡ reports_request chosen_files (1 ∷ 2 ∷ []) ∷ [])
download_request_reaches_target_example =
    download_request_reaches_target big_endian big_endian-RawDataLaws chosen_files (1 ∷ 2 ∷ [])
      idle_download target_download_state
      (record {
        version = tt;
        count = omega arith;
        files = (plain_abc, (plain_xyz, tt));
        user_defined_data = omega arith;
      })
      refl refl
