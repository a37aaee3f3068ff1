-- ===== src/Target/DownloadOperation/Received.antt =====
-- What the end of a transfer does to a download operation of the target: of the request or answer file, and
-- of the list.
use arinc_615a_cli_tool_suit.Base.{
  Bool-cases, IsContained, List, Result, [], arith, err, false, inl, inr, is_caught, is_uncaught,
  not, ok, refl, suc, true, ℕ, ◌==◌, ◌≡◌,
}
use arinc_615a_cli_tool_suit.Files.DownloadAnswerFile
use arinc_615a_cli_tool_suit.Files.DownloadAnswerFile.{DownloadAnswerFile}
use arinc_615a_cli_tool_suit.Files.DownloadRequestFile.{DownloadRequestFile}
use arinc_615a_cli_tool_suit.Files.Failures.{decode_download_answer-IsContained}
use arinc_615a_cli_tool_suit.RawData.{RawDataLaws, RawDataOps}
use arinc_615a_cli_tool_suit.Status.{DownloadKind, media_defined, operator_defined, version_value}
use arinc_615a_cli_tool_suit.Target.DownloadOperation.{
  TargetDownload, download_answer_read, download_file_received, download_request_read,
  downloading_list_completed,
}
use arinc_615a_cli_tool_suit.Target.DownloadOperation.Events.{file_received}
use arinc_615a_cli_tool_suit.Target.DownloadOperation.Ready.{IsReadyDownload, IsReadyFiles-weaken}
use arinc_615a_cli_tool_suit.Target.DownloadOperation.Steps.{
  IsDownloadOutcome, IsDownloadStep, download_finished_step, download_weaken, receives_fatal_file,
}
use arinc_615a_cli_tool_suit.Target.Machine.{call_step, either_step, idle_step, throw_step}
use arinc_615a_cli_tool_suit.Target.Operation.Progress.{target_waits}
use arinc_615a_cli_tool_suit.Tftp.{TftpTransferStatus, TransferStatus, successful, tftp_successful}

module _ (raw : RawDataOps) where
  request_read_step :
      (n : ℕ) (file : Result DownloadRequestFile) (s : TargetDownload)
      → IsReadyDownload (suc n) s
      → IsDownloadOutcome raw n
          (target_waits s.target_base)
          (is_uncaught file)
          []
          (download_request_read file s)
  unfolding download_request_read
  request_read_step n (err e) s r = elim (Bool-cases (is_caught e)) [
    | inl c ↦
        rw c (
          download_finished_step raw n _ _ s (record { text = omega arith; short = omega arith }) r)
    | inr c ↦ rw c (throw_step _ _ _ s e (download_weaken raw n s r))
  ]
  request_read_step n (ok file) s r =
      either_step _ _ _ _
        (not (version_value file.version == version_value s.target_base.protocol_version_v)) _ _
        (download_finished_step raw n _ _ s (record { text = omega arith; short = omega arith }) r)
        (call_step _ _ _ s _ (download_weaken raw n s r) refl refl)

  answer_read_step :
      (n : ℕ) (file : Result DownloadAnswerFile) (s : TargetDownload)
      → IsContained file
      → IsReadyDownload (suc n) s
      → IsDownloadStep raw n (target_waits s.target_base) [] (download_answer_read file s)
  unfolding download_answer_read
  answer_read_step n (err e) s h r = elim (Bool-cases (is_caught e)) [
    | inl c ↦
        rw c (
          download_finished_step raw n _ _ s (record { text = omega arith; short = omega arith }) r)
    | inr c ↦ let never : true ≡ false = rw c at h.contained in cc
  ]
  answer_read_step n (ok file) s h r =
      either_step _ _ _ _
        (not (version_value file.version == version_value s.target_base.protocol_version_v)) _ _
        (download_finished_step raw n _ _ s (record { text = omega arith; short = omega arith }) r)
        (call_step _ _ _ s _ (download_weaken raw n s r) refl refl)

  pub download_received_step :
      (laws : RawDataLaws raw) (n : ℕ) (kind : DownloadKind) (status : TftpTransferStatus)
      (raw_file : List ℕ) (s : TargetDownload)
      → IsReadyDownload (suc n) s
      → IsDownloadOutcome raw n
          (target_waits s.target_base)
          (receives_fatal_file raw kind (file_received status raw_file))
          []
          (download_file_received raw kind status raw_file s)
  unfolding download_file_received
  download_received_step laws n media_defined tftp_successful raw_file s r =
      request_read_step n _ (record s { received_file_operation_v = false })
        (record { version = r.version; ready = r.ready })
  download_received_step laws n operator_defined tftp_successful raw_file s r =
      answer_read_step n _ (record s { received_file_operation_v = false })
        (decode_download_answer-IsContained raw laws DownloadAnswerFile.default raw_file)
        (record { version = r.version; ready = r.ready })
  download_received_step laws n media_defined _ raw_file s r =
      download_finished_step raw n _ _ (record s { received_file_operation_v = false })
        (record { text = omega arith; short = omega arith })
        (record { version = r.version; ready = r.ready })
  download_received_step laws n operator_defined _ raw_file s r =
      download_finished_step raw n _ _ (record s { received_file_operation_v = false })
        (record { text = omega arith; short = omega arith })
        (record { version = r.version; ready = r.ready })

  pub list_completed_step :
      (n : ℕ) (status : TransferStatus) (s : TargetDownload)
      → IsReadyDownload (suc n) s
      → IsDownloadStep raw n
          (target_waits s.target_base)
          []
          (downloading_list_completed status s, [])
  unfolding downloading_list_completed
  list_completed_step n successful s r =
      idle_step _ _ _ (record s { list_operation_v = false })
        (record { version = r.version; ready = IsReadyFiles-weaken n s.status_v r.ready })
  list_completed_step n _ s r =
      download_finished_step raw n _ _ (record s { list_operation_v = false })
        (record { text = omega arith; short = omega arith })
        (record { version = r.version; ready = r.ready })
