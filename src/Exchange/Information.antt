-- ===== src/Exchange/Information.antt =====
-- The status files and the list of hardware on their way from the target to the host.
use arinc_615a_cli_tool_suit.Base.{
  All, Bool, List, [], ap, collect, false, length, ok, refl, run_events, true, ℕ, ◌++◌, ◌+◌, ◌<◌,
  ◌^◌, ◌∙◌, ◌∷◌, ◌≡◌, ◌≤◌,
}
use arinc_615a_cli_tool_suit.Exchange.Delivery.{delivered_in_order}
use arinc_615a_cli_tool_suit.Files.Header.{header_size}
use arinc_615a_cli_tool_suit.Files.InformationStatusFile
use arinc_615a_cli_tool_suit.Files.InformationStatusFile.{InformationStatusFile}
use arinc_615a_cli_tool_suit.Files.LoadConfigurationListFile
use arinc_615a_cli_tool_suit.Files.LoadConfigurationListFile.{LoadConfigurationListFile}
use arinc_615a_cli_tool_suit.Files.LoadConfigurationListFile.RoundTrip.{
  IsLoadConfigurationList, configuration_list_encodes, decode-encode_configuration_list,
}
use arinc_615a_cli_tool_suit.Host.InformationOperation.{
  InformationOperation, InformationOutcome, empty_status_file, handle_status, list_file_completed,
  list_file_request, list_read, status_file_completed, status_file_request, status_read,
  status_received,
}
use arinc_615a_cli_tool_suit.Host.Operation.{
  HostAction, finished, finishes, is_aborted, is_no_abort, no_description, receives_list,
  receives_status, remove, reports_hardware, reports_status, stops_server, trigger_dlp_timeout,
}
use arinc_615a_cli_tool_suit.Information.{Status, TargetHardware}
use arinc_615a_cli_tool_suit.ProtocolFilename.{load_configuration_list}
use arinc_615a_cli_tool_suit.RawData.{RawDataLaws, RawDataOps}
use arinc_615a_cli_tool_suit.Status.{
  Arinc615aVersion, StatusCode, final_completed, invalid_status, operation_accepted,
  operation_completed, operation_in_progress, operation_in_progress_additional_info,
}
use arinc_615a_cli_tool_suit.Target.InformationOperation.{
  TargetInformation, information_sent, target_information, target_information_completed,
  target_information_encoded,
}
use arinc_615a_cli_tool_suit.Target.InformationOperation.Events.{
  TargetInformationEvent, handle_target_information,
}
use arinc_615a_cli_tool_suit.Target.InformationOperation.History.{information_machine}
use arinc_615a_cli_tool_suit.Target.InformationOperation.Steps.{
  IsInformationFile, IsProperInformation, IsReadyInformation,
}
use arinc_615a_cli_tool_suit.Target.Machine.{announced, machine_step}
use arinc_615a_cli_tool_suit.Target.Operation.{
  TargetAction, finalise, protocol_file_operation, reports_end, sends_protocol_file,
}
use arinc_615a_cli_tool_suit.Target.Operation.Progress.{status_files}
use arinc_615a_cli_tool_suit.Tftp.{successful, tftp_successful}

module _ (raw : RawDataOps) where
  -- A status file that is written to the host and received without a failure.
  unfoldable pub deliver_status : List ℕ → InformationOperation → InformationOutcome
  deliver_status file s =
      let requested = status_file_request 0 s in
      let completed = status_file_completed raw 0 tftp_successful file requested.0 in
      (completed.0, requested.1 ++ completed.1)

  -- The list of hardware.
  unfoldable pub deliver_hardware : Bool → List ℕ → InformationOperation → InformationOutcome
  deliver_hardware integrity file s =
      let requested = list_file_request s in
      let completed = list_file_completed raw integrity tftp_successful file requested.0 in
      (completed.0, requested.1 ++ completed.1)

abbrev pub status_told : HostAction → List Status
status_told (reports_status status) = status ∷ []
status_told _ = []

-- No abort is pending, and no status file is being received.
pub record IsAttentive (s : InformationOperation) : Type 0 where
  pub not_aborted : is_no_abort s.base.abort_reason_v ≡ true
  pub none_running : s.status_file_operations_v ≡ []

code_keeps :
    (c : StatusCode) (status : Status) (s : InformationOperation)
    → status.code ≡ c
    → ((handle_status status s).0.base.abort_reason_v ≡ s.base.abort_reason_v)
      × ((handle_status status s).0.status_file_operations_v ≡ s.status_file_operations_v)
      × (collect status_told (handle_status status s).1 ≡ [])
unfolding handle_status finished trigger_dlp_timeout collect
code_keeps operation_accepted status s e = rw e (refl, refl, refl)
code_keeps operation_in_progress status s e = rw e (refl, refl, refl)
code_keeps operation_in_progress_additional_info status s e = rw e (refl, refl, refl)
code_keeps _ status s e = rw e (refl, refl, refl)

module _ (raw : RawDataOps) where
  deliver_status_eq :
      (v : Arinc615aVersion) (file : List ℕ) (status : Status) (s : InformationOperation)
      → IsAttentive s
      → InformationStatusFile.decode raw empty_status_file file
        ≡ ok (record { version = v; status = status })
      → let outcome = handle_status status (record s { status_file_operations_v = [] }) in
        deliver_status raw file s ≡ (outcome.0, receives_status ∷ reports_status status ∷ outcome.1)
  unfolding deliver_status status_file_request is_aborted status_file_completed status_received
      status_read remove
  deliver_status_eq v file status s l d =
      rw (l.not_aborted, l.none_running) (rw (status_read, d) refl)

  status_lem :
      (file : List ℕ) (status : Status) (s : InformationOperation)
      → IsAttentive s
      → IsInformationFile raw file status
      → IsAttentive (deliver_status raw file s).0
        × (collect status_told (deliver_status raw file s).1 ≡ status ∷ [])
  unfolding collect
  status_lem file status s l f =
      let kept = code_keeps status.code status (record s { status_file_operations_v = [] }) refl in
      rw (deliver_status_eq f.0 file status s l f.1)
        (record { not_aborted = rw kept.0 l.not_aborted; none_running = kept.1 }, rw kept.2 refl)

  -- The user of the host is told the statuses that the target sends in an information operation, and no
  -- others, in their order and as they stood when they were sent: where each file is delivered in the
  -- order of sending, the host has no abort pending and receives no other status file, and the target
  -- is in a state and under events that can be sent.
  pub host_hears_information :
      (laws : RawDataLaws raw) (events : List TargetInformationEvent) (t : TargetInformation)
      (h : InformationOperation)
      → All IsProperInformation events
      → IsReadyInformation t
      → IsAttentive h
      → collect status_told
          (run_events
            (deliver_status raw)
            (status_files (run_events (handle_target_information raw) events t).1)
            h).1
        ≡ announced (information_machine raw laws) events t
  host_hears_information laws events t h p r l =
      delivered_in_order (deliver_status raw) status_told IsAttentive (IsInformationFile raw)
        status_lem (status_files (run_events (handle_target_information raw) events t).1)
        (announced (information_machine raw laws) events t) h l
        (machine_step (information_machine raw laws) 0 events t p r).carries

-- The file that is written to the host with the type of the list of hardware.
abbrev pub hardware_file_of : TargetAction → List (List ℕ)
hardware_file_of (sends_protocol_file load_configuration_list _ _ file) = file ∷ []
hardware_file_of _ = []

-- The list of hardware that a target sends reaches the user of the host, who is told each piece and
-- that the operation is completed, and the target ends as completed when the list is sent: where no
-- status was sent before on either side, the host is not receiving a list, the version is supported, the
-- hardware can be sent, and its file has at least 19 bytes and fewer than 2 ^ 32.
pub hardware_reaches_host :
    (raw : RawDataOps) (laws : RawDataLaws raw) (hardware : List TargetHardware) (integrity : Bool)
    (t : TargetInformation) (h : InformationOperation) (file : List ℕ)
    → IsLoadConfigurationList
        (record { version = t.target_base.protocol_version_v; targets_hardware = hardware })
    → collect hardware_file_of (target_information raw hardware t).1 ≡ file ∷ []
    → header_size + 13 ≤ length file
    → length file < 2 ^ 32
    → t.status_v.code ≡ invalid_status
    → h.wait_for_final_status_v ≡ false
    → h.list_file_operation_v ≡ false
    → ((deliver_hardware raw integrity file h).1
        ≡ receives_list
          ∷ reports_hardware hardware integrity
          ∷ finishes operation_completed no_description
          ∷ stops_server
          ∷ [])
      × ((target_information_completed raw successful (target_information raw hardware t).0).1
          ≡ reports_end final_completed [] ∷ [])
unfolding target_information target_information_encoded protocol_file_operation collect
    deliver_hardware list_file_request list_file_completed list_read finished
    target_information_completed information_sent finalise
hardware_reaches_host raw laws hardware integrity t h file p sent long small c w l =
    let content : LoadConfigurationListFile = record {
      version = t.target_base.protocol_version_v;
      targets_hardware = hardware;
    } in
    let (e, writes) = configuration_list_encodes raw laws content p in
    let same : e ≡ file = cc (rw (target_information_encoded, writes) at sent) in
    let reads =
      decode-encode_configuration_list raw laws LoadConfigurationListFile.default content file p
        (writes ∙ ap ok same) long small in
    (
      rw l (rw (list_read, reads) (rw w refl)),
      rw (target_information_encoded, writes) (rw (information_sent, c) refl),
    )
