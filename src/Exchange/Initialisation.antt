-- ===== src/Exchange/Initialisation.antt =====
-- The start of an operation: the request of the host, and the answer of the target.
use arinc_615a_cli_tool_suit.Base.{
  List, Option, [], collect, false, if◌then◌else◌, none, ok, refl, some, true, ℕ, ◌==◌, ◌∷◌, ◌≡◌,
}
use arinc_615a_cli_tool_suit.Files.Header.Laws.{IsSupported}
use arinc_615a_cli_tool_suit.Files.InitializationFile
use arinc_615a_cli_tool_suit.Files.InitializationFile.{InitializationFile}
use arinc_615a_cli_tool_suit.Files.InitializationFile.RoundTrip.{decode-encode_initialization}
use arinc_615a_cli_tool_suit.Files.Strings.Laws.{IsPlain}
use arinc_615a_cli_tool_suit.Host.DownloadOperation.{DownloadOperation, start_download}
use arinc_615a_cli_tool_suit.Host.InformationOperation.{InformationOperation, start_information}
use arinc_615a_cli_tool_suit.Host.Operation.{
  HostAction, HostOperation, finished, finishes, given, handle_response,
  initialisation_file_completed, initialise, reports_response, requests_initialisation,
  response_read, stops_server, trigger_dlp_timeout,
}
use arinc_615a_cli_tool_suit.Host.UploadOperation.{UploadOperation, start_upload}
use arinc_615a_cli_tool_suit.ProtocolFilename.{
  ProtocolFileType, ProtocolFilename, filename_is_valid, load_configuration_initialization,
  media_defined_download_initialization, operator_defined_download_initialization,
  upload_initialization,
}
use arinc_615a_cli_tool_suit.ProtocolFilename.Laws.{filename_of_string-to_string}
use arinc_615a_cli_tool_suit.RawData.{RawDataLaws, RawDataOps}
use arinc_615a_cli_tool_suit.Status.{
  Arinc615aVersion, IsResponse, OperationAcceptanceStatusCode, acceptance_status, accepted,
  arinc_615a_34, denied, information_operation, media_defined, media_defined_download_operation,
  not_supported, operator_defined, operator_defined_download_operation, upload_operation,
  version_value,
}
use arinc_615a_cli_tool_suit.Target.ErrorOperation.{ErrorOperation, error_file_encoded, start_error}
use arinc_615a_cli_tool_suit.Target.Operation.{
  TargetAction, TargetOperation, do_start, init_file_sent, send_init_file, sends_initialisation,
}
use arinc_615a_cli_tool_suit.Target.Operation.Pending.{empty-IsPlain}
use arinc_615a_cli_tool_suit.Target.Protocol.{
  ProtocolAction, TargetProtocol, handle_initialisation_file, is_initialization, operation_type,
  received_tftp_request, starts_operation,
}
use arinc_615a_cli_tool_suit.TargetId.{TargetId, target_id_is_valid}
use arinc_615a_cli_tool_suit.Tftp.{read_request, successful}

-- What the protocol class of the target does with the request for an initialization file.
abbrev pub at_target : Option ℕ → TargetProtocol → HostAction → List ProtocolAction
at_target port p (requests_initialisation filename) =
    received_tftp_request read_request filename port p
at_target port p _ = []

abbrev pub initialisation_of : TargetAction → List (List ℕ)
initialisation_of (sends_initialisation file _) = file ∷ []
initialisation_of _ = []

valid_name :
    (t : ProtocolFileType) (id : TargetId)
    → is_initialization t ≡ true
    → target_id_is_valid id ≡ true
    → filename_is_valid (record { target_id = id; file_type = t }) ≡ true
unfolding filename_is_valid
valid_name load_configuration_initialization id i v = rw v refl
valid_name upload_initialization id i v = rw v refl
valid_name media_defined_download_initialization id i v = rw v refl
valid_name operator_defined_download_initialization id i v = rw v refl
valid_name _ id i v = cc

initialise_starts_operation :
    (t : ProtocolFileType) (h : HostOperation) (port : Option ℕ) (p : TargetProtocol)
    → is_initialization t ≡ true
    → target_id_is_valid h.target_id_v ≡ true
    → collect (at_target port p) (initialise t h).1
      ≡ starts_operation
          (operation_type t)
          (if version_value p.protocol_version_v == version_value arinc_615a_34 then port else none)
          h.target_id_v
        ∷ []
unfolding initialise collect received_tftp_request handle_initialisation_file
initialise_starts_operation t h port p i v =
    let name : ProtocolFilename = record { target_id = h.target_id_v; file_type = t } in
    let (same, known) = filename_of_string-to_string name (valid_name t h.target_id_v i v) in
    rw (known, same, i) refl

-- A host that starts an operation makes the protocol class of the target start an operation of the same
-- type for the target that the host names, with the port option only in version 3/4, and do nothing
-- else: for all four operations, where the identifications of the targets are valid.
pub each_start_reaches_target :
    (i : InformationOperation) (u : UploadOperation) (d : DownloadOperation) (port : Option ℕ)
    (p : TargetProtocol)
    → target_id_is_valid i.base.target_id_v ≡ true
    → target_id_is_valid u.upload_base.target_id_v ≡ true
    → target_id_is_valid d.download_base.target_id_v ≡ true
    → let answered =
        if version_value p.protocol_version_v == version_value arinc_615a_34 then port else none in
      let received : List HostAction → List ProtocolAction = collect (at_target port p) in
      (received (start_information i).1
        ≡ starts_operation information_operation answered i.base.target_id_v ∷ [])
      × (received (start_upload u).1
          ≡ starts_operation upload_operation answered u.upload_base.target_id_v ∷ [])
      × (received (start_download media_defined d).1
          ≡ starts_operation media_defined_download_operation answered d.download_base.target_id_v
            ∷ [])
      × (received (start_download operator_defined d).1
          ≡ starts_operation operator_defined_download_operation answered
              d.download_base.target_id_v
            ∷ [])
unfolding start_information start_upload start_download
each_start_reaches_target i u d port p vi vu vd = (
  initialise_starts_operation load_configuration_initialization i.base port p refl vi,
  initialise_starts_operation upload_initialization u.upload_base port p refl vu,
  initialise_starts_operation media_defined_download_initialization d.download_base port p refl vd,
  initialise_starts_operation operator_defined_download_initialization d.download_base port p refl
      vd,
)

-- The codes that refuse an operation.
abbrev pub IsRefusal : OperationAcceptanceStatusCode → Type 0
IsRefusal denied = Unit {0}
IsRefusal not_supported = Unit {0}
IsRefusal _ = ⊥

refusal-IsResponse : (c : OperationAcceptanceStatusCode) → IsRefusal c → IsResponse c
refusal-IsResponse denied r = tt
refusal-IsResponse not_supported r = tt
refusal-IsResponse _ r = absurd r

refused :
    (c : OperationAcceptanceStatusCode) (d : List ℕ) (v : Arinc615aVersion) (h : HostOperation)
    → IsRefusal c
    → handle_response v (record { code = c; description = d }) h
      ≡ finished (acceptance_status c) (given d) h
unfolding handle_response
refused denied d v h r = refl
refused not_supported d v h r = refl
refused _ d v h r = absurd r

module _ (raw : RawDataOps) (laws : RawDataLaws raw) where
  sent :
      (address : ℕ) (port : Option ℕ) (t : TargetOperation) (file : List ℕ)
      → InitializationFile.encode raw (record {
        version = t.protocol_version_v;
        response = record { code = accepted; description = [] };
      })
        ≡ ok file
      → collect initialisation_of (do_start raw address port t).1 ≡ file ∷ []
  unfolding do_start send_init_file init_file_sent collect
  sent address none t file writes = rw (init_file_sent, writes) refl
  sent address (some port) t file writes = rw (init_file_sent, writes) refl

  -- A target that starts an operation sends one initialization file, and a host that receives it reports
  -- the acceptance, takes over the protocol version of the target, and waits for a status file: where
  -- the version is supported.
  pub acceptance_reaches_host :
      (address : ℕ) (port : Option ℕ) (t : TargetOperation) (h : HostOperation)
      → IsSupported t.protocol_version_v
      → (file : List ℕ) × (collect initialisation_of (do_start raw address port t).1 ≡ file ∷ [])
        × (initialisation_file_completed raw successful file h ≡ (
          trigger_dlp_timeout 0 (record h {
            initialisation_operation_v = false;
            protocol_version_v = t.protocol_version_v;
          }),
          reports_response (record { code = accepted; description = [] }) ∷ [],
        ))
  unfolding initialisation_file_completed response_read handle_response
  acceptance_reaches_host address port t h v =
      let content : InitializationFile = record {
        version = t.protocol_version_v;
        response = record { code = accepted; description = [] };
      } in
      let (file, writes, reads) =
        decode-encode_initialization raw laws InitializationFile.default content
          (record { version = v; code = tt; description = empty-IsPlain }) in
      (file, sent address port t file writes, rw (response_read, reads) refl)

  -- A target that refuses an operation sends one initialization file, and a host that receives it
  -- reports the refusal and finishes with its code and its description: where the version is supported,
  -- the code denies the operation or tells that it is not supported, and the description is plain.
  pub refusal_reaches_host :
      (port : Option ℕ) (t : ErrorOperation) (h : HostOperation)
      → IsSupported t.protocol_version_v
      → IsRefusal t.refusal_code
      → IsPlain t.refusal_description
      → (file : List ℕ) × (collect initialisation_of (start_error raw port t).1 ≡ file ∷ [])
        × ((initialisation_file_completed raw successful file h).1
            ≡ reports_response
                (record { code = t.refusal_code; description = t.refusal_description })
              ∷ finishes (acceptance_status t.refusal_code) (given t.refusal_description)
              ∷ stops_server
              ∷ [])
  unfolding start_error error_file_encoded collect initialisation_file_completed response_read
      finished
  refusal_reaches_host port t h v r p =
      let content : InitializationFile = record {
        version = t.protocol_version_v;
        response = record { code = t.refusal_code; description = t.refusal_description };
      } in
      let (file, writes, reads) =
        decode-encode_initialization raw laws InitializationFile.default content
          (record { version = v; code = refusal-IsResponse t.refusal_code r; description = p }) in
      (
        file,
        rw (error_file_encoded, writes) refl,
        rw (response_read, reads)
            (rw
              (refused t.refusal_code t.refusal_description t.protocol_version_v
                (record h { initialisation_operation_v = false }) r)
              refl),
      )
