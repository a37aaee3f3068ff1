-- ===== src/Tests/HostOperations.antt =====
-- The information operation of the host at concrete data.
use arinc_615a_cli_tool_suit.Base.{
  List, [], false, find, none, refl, str_eq, true, ℕ, ◌||◌, ◌∷◌, ◌≡◌,
}
use arinc_615a_cli_tool_suit.Host.InformationOperation.{InformationOperation, start_information}
use arinc_615a_cli_tool_suit.Host.InformationOperation.History.{
  HostEvent, initialisation_completion, list_completion, run, server_request,
  started_waits_or_has_finished,
}
use arinc_615a_cli_tool_suit.Host.Operation.{check_request, no_abort}
use arinc_615a_cli_tool_suit.Host.Operation.Progress.{has_finished, is_waiting}
use arinc_615a_cli_tool_suit.ProtocolFilename.{
  extension_of, extension_type_info_index, file_type_of, filename_of_string, filename_to_string,
  find_by_extension, find_by_type, is_protocol_filename, load_configuration_list,
  load_configuration_status, split_filename,
}
use arinc_615a_cli_tool_suit.RawData.BigEndian.{big_endian}
use arinc_615a_cli_tool_suit.Status.{arinc_615a_34}
use arinc_615a_cli_tool_suit.TargetId.{
  TargetId, all_alnum, is_compliant, is_position, is_target_id, is_thw_id, split_target_id,
  target_id_of_string, target_id_to_string,
}
use arinc_615a_cli_tool_suit.Tftp.{successful, tftp_transfer_error, write_request}

abbrev target : TargetId
target = record { thw_id = b'H' ∷ b'N' ∷ b'P' ∷ b'F' ∷ []; position = b'L' ∷ [] }

abbrev pub idle_host : InformationOperation
idle_host = record {
  base = record {
    target_id_v = target;
    dlp_timeout_v = 13;
    port_option_v = true;
    protocol_version_v = arinc_615a_34;
    abort_reason_v = no_abort;
    timer_v = none;
    initialisation_operation_v = false;
  };
  wait_for_final_status_v = false;
  status_file_operations_v = [];
  list_file_operation_v = false;
}

abbrev accepted_bytes : List ℕ
accepted_bytes = 0 ∷ 0 ∷ 0 ∷ 9 ∷ 0x41 ∷ 0x34 ∷ 0 ∷ 1 ∷ 0 ∷ []

-- The list file is announced, and cannot be received.
abbrev events : List HostEvent
events =
    initialisation_completion successful accepted_bytes
    ∷ server_request write_request
        (filename_to_string (record { target_id = target; file_type = load_configuration_list })) 0
    ∷ list_completion true tftp_transfer_error []
    ∷ []

started_waits_or_has_finished_example :
    is_waiting (run big_endian events (start_information idle_host).0).0.base
      || has_finished (run big_endian events (start_information idle_host).0).1
    ≡ true
started_waits_or_has_finished_example = started_waits_or_has_finished big_endian events idle_host

abbrev status_filename : List ℕ
status_filename =
    filename_to_string (record { target_id = target; file_type = load_configuration_status })

status_filename_checked : check_request status_filename idle_host.base ≡ true
unfolding check_request is_protocol_filename filename_to_string filename_of_string split_filename
    target_id_to_string extension_of find_by_type extension_type_info_index find is_target_id
    split_target_id is_thw_id is_position is_compliant all_alnum target_id_of_string file_type_of
    find_by_extension str_eq
status_filename_checked = refl
