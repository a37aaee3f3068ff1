-- ===== src/Exchange/Names.antt =====
-- The names under which host and target write their protocol files to each other.
use arinc_615a_cli_tool_suit.Base.{
  List, [], collect, false, refl, str_eq_refl, true, ℕ, ◌==◌, ◌∷◌, ◌≡◌,
}
use arinc_615a_cli_tool_suit.Files.DownloadAnswerFile
use arinc_615a_cli_tool_suit.Files.DownloadAnswerFile.{DownloadAnswerFile}
use arinc_615a_cli_tool_suit.Files.DownloadListFile
use arinc_615a_cli_tool_suit.Files.DownloadListFile.{DownloadListFile}
use arinc_615a_cli_tool_suit.Files.DownloadRequestFile
use arinc_615a_cli_tool_suit.Files.DownloadRequestFile.{DownloadRequestFile}
use arinc_615a_cli_tool_suit.Files.InformationStatusFile.RoundTrip.{
  decode-encode_information_status,
}
use arinc_615a_cli_tool_suit.Files.LoadConfigurationListFile.RoundTrip.{
  IsLoadConfigurationList, configuration_list_encodes,
}
use arinc_615a_cli_tool_suit.Files.UploadRequestFile
use arinc_615a_cli_tool_suit.Files.UploadRequestFile.{UploadRequestFile}
use arinc_615a_cli_tool_suit.Host.DownloadOperation.{DownloadOperation}
use arinc_615a_cli_tool_suit.Host.InformationOperation.{
  InformationOperation, InformationOutcome, empty_status_file, file_request, list_file_request,
  status_file_request, tftp_request,
}
use arinc_615a_cli_tool_suit.Host.Operation.{
  HostAction, HostOperation, check_request, sends_download_file, sends_load_list,
}
use arinc_615a_cli_tool_suit.Host.UploadOperation.{UploadOperation}
use arinc_615a_cli_tool_suit.Information.{TargetHardware}
use arinc_615a_cli_tool_suit.ProtocolFilename.{
  ProtocolFileType, filename_is_valid, filename_of_string, filename_to_string, invalid_type,
  is_protocol_filename, load_configuration_list, load_configuration_status, type_value,
}
use arinc_615a_cli_tool_suit.ProtocolFilename.Laws.{filename_of_string-to_string}
use arinc_615a_cli_tool_suit.RawData.{RawDataLaws, RawDataOps}
use arinc_615a_cli_tool_suit.Target.InformationOperation.{
  TargetInformation, information_status_encoded, information_status_file, target_information,
  target_information_encoded,
}
use arinc_615a_cli_tool_suit.Target.InformationOperation.Steps.{IsReadyInformation}
use arinc_615a_cli_tool_suit.Target.Operation.{
  TargetAction, protocol_file_operation, sends_protocol_file,
}
use arinc_615a_cli_tool_suit.Target.Operation.Pending.{force_acceptance-IsStatus}
use arinc_615a_cli_tool_suit.Target.Operation.State.{force_acceptance}
use arinc_615a_cli_tool_suit.TargetId.{TargetId, target_id_is_valid}
use arinc_615a_cli_tool_suit.Tftp.{write_request}

abbrev pub protocol_name : TargetId → ProtocolFileType → List ℕ
protocol_name id t = filename_to_string (record { target_id = id; file_type = t })

name_lem :
    (t : ProtocolFileType) (id : TargetId)
    → (type_value invalid_type == type_value t) ≡ false
    → target_id_is_valid id ≡ true
    → (filename_of_string (protocol_name id t) ≡ record { target_id = id; file_type = t })
      × (is_protocol_filename (protocol_name id t) ≡ true)
unfolding filename_is_valid
name_lem t id k v =
    filename_of_string-to_string (record { target_id = id; file_type = t }) (rw (v, k) refl)

check_lem :
    (t : ProtocolFileType) (id : TargetId) (h : HostOperation)
    → (type_value invalid_type == type_value t) ≡ false
    → target_id_is_valid id ≡ true
    → h.target_id_v ≡ id
    → (check_request (protocol_name id t) h ≡ true)
      × ((filename_of_string (protocol_name id t)).file_type ≡ t)
unfolding check_request
check_lem t id h k v e =
    let (same, known) = name_lem t id k v in
    (rw (known, same, e, str_eq_refl id.thw_id, str_eq_refl id.position) refl, rw same refl)

-- What the TFTP server of the host, or of the target, does with each file that the other side writes, by
-- the name under which it is written.
abbrev pub served_at_host {ℓ} : {A : Type ℓ} → (List ℕ → A) → TargetAction → List A
served_at_host serve (sends_protocol_file _ _ filename _) = serve filename ∷ []
served_at_host serve _ = []

abbrev pub served_at_target {ℓ} : {A : Type ℓ} → (List ℕ → A) → HostAction → List A
served_at_target serve (sends_load_list filename _) = serve filename ∷ []
served_at_target serve (sends_download_file filename _) = serve filename ∷ []
served_at_target serve _ = []

module _ (raw : RawDataOps) (laws : RawDataLaws raw) where
  -- An information operation of the target writes its status and its list under names with which a host
  -- of the same identification starts the reception of a status and of a list: where the identification
  -- is valid, the status can be sent, and so can the hardware.
  information_files_are_taken :
      (t : TargetInformation) (hardware : List TargetHardware) (i : InformationOperation)
      (operation : ℕ)
      → IsReadyInformation t
      → IsLoadConfigurationList
          (record { version = t.target_base.protocol_version_v; targets_hardware = hardware })
      → target_id_is_valid t.target_base.target_id_v ≡ true
      → i.base.target_id_v ≡ t.target_base.target_id_v
      → let serve : List ℕ → InformationOutcome =
          λ filename. tftp_request write_request filename operation i in
        (collect (served_at_host serve) (information_status_file raw t).1
          ≡ status_file_request operation i ∷ [])
        × (collect (served_at_host serve) (target_information raw hardware t).1
            ≡ list_file_request i ∷ [])
  unfolding information_status_file information_status_encoded target_information
      target_information_encoded protocol_file_operation collect tftp_request file_request
  information_files_are_taken t hardware i operation r p v e =
      let status = check_lem load_configuration_status t.target_base.target_id_v i.base refl v e in
      let list = check_lem load_configuration_list t.target_base.target_id_v i.base refl v e in
      let (file, writes, reads) =
        decode-encode_information_status raw laws empty_status_file
          (record {
            version = t.target_base.protocol_version_v;
            status = force_acceptance t.status_v;
          })
          r.version (force_acceptance-IsStatus t.status_v r.pending) in
      let (list_file, list_writes) =
        configuration_list_encodes raw laws
          (record { version = t.target_base.protocol_version_v; targets_hardware = hardware }) p in
      (
        rw (information_status_encoded, writes) (rw (status.0, status.1) refl),
        rw (target_information_encoded, list_writes) (rw (list.0, list.1) refl),
      )
