-- ===== src/Tests/Uploads.antt =====
-- The upload operation of the host at concrete data.
use arinc_615a_cli_tool_suit.Base.{
  List, [], any_of, encode_many, false, none, refl, true, ℕ, ◌||◌, ◌∷◌, ◌≡◌,
}
use arinc_615a_cli_tool_suit.Files.Buffers.{start_with}
use arinc_615a_cli_tool_suit.Files.Header.{insert_header}
use arinc_615a_cli_tool_suit.Files.Strings.{clear_last, is_too_long, string_encode, write_string}
use arinc_615a_cli_tool_suit.Files.UploadRequestFile
use arinc_615a_cli_tool_suit.Files.UploadRequestFile.{UploadRequestFile}
use arinc_615a_cli_tool_suit.Host.Operation.{no_abort}
use arinc_615a_cli_tool_suit.Host.Operation.Progress.{has_finished, is_waiting}
use arinc_615a_cli_tool_suit.Host.UploadOperation.{
  UploadOperation, load_list, load_list_completed, send_load_list, start_upload,
}
use arinc_615a_cli_tool_suit.Host.UploadOperation.Actions.{sends_list}
use arinc_615a_cli_tool_suit.Host.UploadOperation.History.{
  UploadEvent, run_upload, started_upload_waits_or_has_finished, upload_initialisation,
  upload_list_completion, upload_load_list, upload_server_request, upload_status_completion,
}
use arinc_615a_cli_tool_suit.Host.UploadOperation.LoadList.{load_list_is_not_sent_again}
use arinc_615a_cli_tool_suit.Information.{UploadLoad}
use arinc_615a_cli_tool_suit.ProtocolFilename.{filename_to_string, upload_status}
use arinc_615a_cli_tool_suit.RawData.BigEndian.{big_endian}
use arinc_615a_cli_tool_suit.Status.{arinc_615a_34}
use arinc_615a_cli_tool_suit.TargetId.{TargetId}
use arinc_615a_cli_tool_suit.Tftp.{successful, tftp_successful, tftp_transfer_error, write_request}

abbrev pub upload_target : TargetId
upload_target = record { thw_id = b'H' ∷ b'N' ∷ b'P' ∷ b'F' ∷ []; position = b'L' ∷ [] }

abbrev pub idle_upload : UploadOperation
idle_upload = record {
  upload_base = record {
    target_id_v = upload_target;
    dlp_timeout_v = 13;
    port_option_v = true;
    protocol_version_v = arinc_615a_34;
    abort_reason_v = no_abort;
    timer_v = none;
    initialisation_operation_v = false;
  };
  load_list_sent_v = false;
  load_list_operation_v = false;
  upload_status_operations_v = [];
}

abbrev one_load : List UploadLoad
one_load = record { header_filename = b'A' ∷ []; part_number = b'P' ∷ [] } ∷ []

abbrev pub accepted_upload : List ℕ
accepted_upload = 0 ∷ 0 ∷ 0 ∷ 9 ∷ 0x41 ∷ 0x34 ∷ 0 ∷ 1 ∷ 0 ∷ []

-- The list is taken, the user wants to send another one, and the target announces a status file that
-- cannot be received.
abbrev upload_events : List UploadEvent
upload_events =
    upload_initialisation successful accepted_upload
    ∷ upload_load_list one_load
    ∷ upload_list_completion successful
    ∷ upload_load_list one_load
    ∷ upload_server_request write_request
        (filename_to_string (record { target_id = upload_target; file_type = upload_status })) 0
    ∷ upload_status_completion 0 tftp_transfer_error []
    ∷ []

-- The first load list is sent.
first_list_is_sent : sends_list (load_list big_endian one_load idle_upload).1 ≡ true
unfolding any_of load_list send_load_list UploadRequestFile.encode start_with encode_many
    UploadRequestFile.encode_load string_encode is_too_long write_string insert_header clear_last
first_list_is_sent = refl

load_list_is_not_sent_again_example :
    let taken = (load_list_completed successful idle_upload).0 in
    let outcome = run_upload big_endian upload_events taken in
    (outcome.0.load_list_sent_v ≡ true) × (sends_list outcome.1 ≡ false)
load_list_is_not_sent_again_example =
    load_list_is_not_sent_again big_endian upload_events idle_upload

started_upload_waits_or_has_finished_example :
    let outcome = run_upload big_endian upload_events (start_upload idle_upload).0 in
    is_waiting outcome.0.upload_base || has_finished outcome.1 ≡ true
started_upload_waits_or_has_finished_example =
    started_upload_waits_or_has_finished big_endian upload_events idle_upload

transfer_error_not_successful : ¬ (tftp_transfer_error ≡ tftp_successful)
transfer_error_not_successful p = cc
