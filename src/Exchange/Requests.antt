-- ===== src/Exchange/Requests.antt =====
-- What the users of host and target choose, on its way to the other side: the loads of an upload, and the
-- files of a download.
use arinc_615a_cli_tool_suit.Base.{==_refl, List, [], collect, false, refl, true, ℕ, ◌==◌, ◌∷◌, ◌≡◌}
use arinc_615a_cli_tool_suit.Exchange.Names.{protocol_name}
use arinc_615a_cli_tool_suit.Files.DownloadAnswerFile
use arinc_615a_cli_tool_suit.Files.DownloadAnswerFile.{DownloadAnswerFile}
use arinc_615a_cli_tool_suit.Files.DownloadAnswerFile.RoundTrip.{
  IsDownloadAnswer, decode-encode_download_answer,
}
use arinc_615a_cli_tool_suit.Files.DownloadListFile
use arinc_615a_cli_tool_suit.Files.DownloadListFile.{DownloadListFile}
use arinc_615a_cli_tool_suit.Files.DownloadListFile.RoundTrip.{
  IsDownloadList, decode-encode_download_list,
}
use arinc_615a_cli_tool_suit.Files.DownloadRequestFile
use arinc_615a_cli_tool_suit.Files.DownloadRequestFile.{DownloadRequestFile}
use arinc_615a_cli_tool_suit.Files.DownloadRequestFile.RoundTrip.{
  IsDownloadRequest, decode-encode_download_request,
}
use arinc_615a_cli_tool_suit.Files.UploadRequestFile
use arinc_615a_cli_tool_suit.Files.UploadRequestFile.{UploadRequestFile}
use arinc_615a_cli_tool_suit.Files.UploadRequestFile.RoundTrip.{
  IsUploadRequest, decode-encode_upload_request,
}
use arinc_615a_cli_tool_suit.Host.DownloadOperation.{
  DownloadOperation, answer_download, download_list_completed, download_list_read, request_download,
  send_download_file,
}
use arinc_615a_cli_tool_suit.Host.Operation.{
  reports_download_list, sends_download_file, sends_load_list,
}
use arinc_615a_cli_tool_suit.Host.UploadOperation.{UploadOperation, load_list, send_load_list}
use arinc_615a_cli_tool_suit.Information.{DownloadFileInformation, UploadLoad}
use arinc_615a_cli_tool_suit.ProtocolFilename.{
  media_defined_download_request, operator_defined_download_answer, operator_defined_download_list,
  upload_request,
}
use arinc_615a_cli_tool_suit.RawData.{RawDataLaws, RawDataOps}
use arinc_615a_cli_tool_suit.Status.{
  Arinc615aVersion, media_defined, operator_defined, version_value,
}
use arinc_615a_cli_tool_suit.Target.DownloadOperation.{
  TargetDownload, download_answer_read, download_file_received, download_request_read,
  downloading_list, list_encoded,
}
use arinc_615a_cli_tool_suit.Target.Operation.{
  TargetAction, protocol_file_operation, reports_answer, reports_loads, reports_request,
  sends_protocol_file,
}
use arinc_615a_cli_tool_suit.Target.UploadOperation.{
  TargetUpload, request_file_completed, request_file_read,
}
use arinc_615a_cli_tool_suit.Tftp.{tftp_successful}

version_same : (v w : Arinc615aVersion) → v ≡ w → (version_value v == version_value w) ≡ true
version_same v w e = rw e (==_refl (version_value w))

-- The list of files that is written to the host.
abbrev pub download_list_of : TargetAction → List (List ℕ)
download_list_of (sends_protocol_file operator_defined_download_list _ _ file) = file ∷ []
download_list_of _ = []

module _ (raw : RawDataOps) (laws : RawDataLaws raw) where
  -- The loads that the user of the host gives are sent in one file, under the name of the request file of
  -- an upload, and a target that receives it tells its user these loads: where none were sent before,
  -- they can be sent, and host and target use the same version.
  pub load_list_reaches_target :
      (loads : List UploadLoad) (h : UploadOperation) (t : TargetUpload)
      → IsUploadRequest (record { version = h.upload_base.protocol_version_v; loads = loads })
      → h.load_list_sent_v ≡ false
      → h.upload_base.protocol_version_v ≡ t.target_base.protocol_version_v
      → (file : List ℕ) × ((load_list raw loads h).1
          ≡ sends_load_list (protocol_name h.upload_base.target_id_v upload_request) file ∷ [])
        × ((request_file_completed raw tftp_successful file t).1 ≡ reports_loads loads ∷ [])
  unfolding load_list send_load_list request_file_completed request_file_read
  load_list_reaches_target loads h t p unsent same =
      let (file, writes, reads) =
        decode-encode_upload_request raw laws UploadRequestFile.default
          (record { version = h.upload_base.protocol_version_v; loads = loads }) p in
      (
        file,
        rw unsent (rw (send_load_list, writes) refl),
        rw (request_file_read, reads)
            (rw
              (version_same h.upload_base.protocol_version_v t.target_base.protocol_version_v same)
              refl),
      )

  -- The files that a target offers in an operator defined download are sent in one file, and a host that
  -- receives it tells its user these files: where they can be sent.
  pub download_list_reaches_host :
      (files : List DownloadFileInformation) (t : TargetDownload) (h : DownloadOperation)
      → IsDownloadList (record { version = t.target_base.protocol_version_v; files = files })
      → (file : List ℕ) × (collect download_list_of (downloading_list raw files t).1 ≡ file ∷ [])
        × ((download_list_completed raw tftp_successful file h).1
            ≡ reports_download_list files ∷ [])
  unfolding downloading_list list_encoded protocol_file_operation collect download_list_completed
      download_list_read
  download_list_reaches_host files t h p =
      let (file, writes, reads) =
        decode-encode_download_list raw laws DownloadListFile.default
          (record { version = t.target_base.protocol_version_v; files = files }) p in
      (file, rw (list_encoded, writes) refl, rw (download_list_read, reads) refl)

  -- The files that the user of the host chooses from the list are sent in one file, under the name of the
  -- answer file, and a target that receives it tells its user these files: where none were sent before,
  -- they can be sent, and host and target use the same version.
  pub answer_reaches_target :
      (files : List (List ℕ)) (h : DownloadOperation) (t : TargetDownload)
      → IsDownloadAnswer (record { version = h.download_base.protocol_version_v; files = files })
      → h.sent_v ≡ false
      → h.download_base.protocol_version_v ≡ t.target_base.protocol_version_v
      → (file : List ℕ) × ((answer_download raw files h).1
          ≡ sends_download_file
              (protocol_name h.download_base.target_id_v operator_defined_download_answer)
              file
            ∷ [])
        × ((download_file_received raw operator_defined tftp_successful file t).1
            ≡ reports_answer files ∷ [])
  unfolding answer_download send_download_file download_file_received download_answer_read
  answer_reaches_target files h t p unsent same =
      let (file, writes, reads) =
        decode-encode_download_answer raw laws DownloadAnswerFile.default
          (record { version = h.download_base.protocol_version_v; files = files }) p in
      (
        file,
        rw unsent (rw (send_download_file, writes) refl),
        rw (download_answer_read, reads)
            (rw
              (version_same h.download_base.protocol_version_v t.target_base.protocol_version_v
                same)
              refl),
      )

  -- The files and the data that the user of the host gives for a media defined download are sent in one
  -- file, under the name of the request file of a download, and a target that receives it tells its user
  -- these: where none were sent before, they can be sent, and host and target use the same version.
  pub download_request_reaches_target :
      (files : List (List ℕ)) (data_of_user : List ℕ) (h : DownloadOperation) (t : TargetDownload)
      → IsDownloadRequest (record {
        version = h.download_base.protocol_version_v;
        files = files;
        user_defined_data = data_of_user;
      })
      → h.sent_v ≡ false
      → h.download_base.protocol_version_v ≡ t.target_base.protocol_version_v
      → (file : List ℕ) × ((request_download raw files data_of_user h).1
          ≡ sends_download_file
              (protocol_name h.download_base.target_id_v media_defined_download_request)
              file
            ∷ [])
        × ((download_file_received raw media_defined tftp_successful file t).1
            ≡ reports_request files data_of_user ∷ [])
  unfolding request_download send_download_file download_file_received download_request_read
  download_request_reaches_target files data_of_user h t p unsent same =
      let (file, writes, reads) =
        decode-encode_download_request raw laws DownloadRequestFile.default
          (record {
            version = h.download_base.protocol_version_v;
            files = files;
            user_defined_data = data_of_user;
          })
          p in
      (
        file,
        rw unsent (rw (send_download_file, writes) refl),
        rw (download_request_read, reads)
            (rw
              (version_same h.download_base.protocol_version_v t.target_base.protocol_version_v
                same)
              refl),
      )
