-- ===== src/Target/DownloadOperation/Steps.antt =====
-- What one event does to a download operation of the target whose status can be sent.
use arinc_615a_cli_tool_suit.Base.{
  All, Bool, List, Option-cases, [], any_of, arith, collect, false, inl, inr, is_uncaught, length,
  ok, or_left, or_true, refl, suc, true, ℕ, ◌<◌, ◌∷◌, ◌≡◌, ◌≤◌,
}
use arinc_615a_cli_tool_suit.Files.DownloadListFile.RoundTrip.{IsFileInformation}
use arinc_615a_cli_tool_suit.Files.DownloadRequestFile
use arinc_615a_cli_tool_suit.Files.DownloadRequestFile.{DownloadRequestFile}
use arinc_615a_cli_tool_suit.Files.DownloadStatusFile
use arinc_615a_cli_tool_suit.Files.DownloadStatusFile.{DownloadStatusFile, empty_download_status}
use arinc_615a_cli_tool_suit.Files.Ratio.Laws.{IsRatio}
use arinc_615a_cli_tool_suit.Files.Strings.Laws.{IsPlain}
use arinc_615a_cli_tool_suit.Information.{DownloadStatus}
use arinc_615a_cli_tool_suit.RawData.{RawDataOps, modulus, u16}
use arinc_615a_cli_tool_suit.Status.{
  Arinc615aVersion, DownloadKind, FinalStatus, IsTransmitted, StatusCode, media_defined,
  operator_defined, status_code_of_final,
}
use arinc_615a_cli_tool_suit.Target.DownloadOperation.{
  TargetDownload, TargetDownloadOutcome, download_finished, download_request,
  download_status_file_completed, received_type, transmit_download_if, with_download_base,
  with_download_status,
}
use arinc_615a_cli_tool_suit.Target.DownloadOperation.Events.{
  TargetDownloadEvent, accepts_file, download_progresses, download_progresses_ratio, download_timer,
  file_received, finishes_download, finishes_file, finishes_files, progresses_file,
  sends_download_list,
}
use arinc_615a_cli_tool_suit.Target.DownloadOperation.Ready.{
  IsReadyDownload, IsReadyFiles-weaken, with_download_status-IsReady,
}
use arinc_615a_cli_tool_suit.Target.Machine.{
  IsTargetOutcome, IsTargetStep, base_step, call_step, idle_step,
}
use arinc_615a_cli_tool_suit.Target.Operation.{
  TargetOutcome, receives_request_file, send_init_file_complete, trigger_status_transmission,
}
use arinc_615a_cli_tool_suit.Target.Operation.BaseSteps.{
  IsBaseStep, completed-IsBaseStep, init_complete-IsBaseStep, refusal-quiet,
}
use arinc_615a_cli_tool_suit.Target.Operation.Pending.{
  final-IsTransmitted, set_target_status-IsPending,
}
use arinc_615a_cli_tool_suit.Target.Operation.Progress.{target_waits}
use arinc_615a_cli_tool_suit.Target.Operation.State.{force_acceptance, refusal, set_target_status}
use arinc_615a_cli_tool_suit.Tftp.{RequestType, TftpTransferStatus, TransferStatus, tftp_successful}
use arinc_615a_cli_tool_suit.Tftp.ClientOperation.{expired, timer_error}

-- The event comes from a user who gives texts and numbers that can be sent.
abbrev pub IsProperDownload : TargetDownloadEvent → Type 0
IsProperDownload (download_progresses _ estimated_time description) =
    (estimated_time < modulus u16) × IsPlain description
IsProperDownload (download_progresses_ratio _ estimated_time description list_ratio) =
    (estimated_time < modulus u16) × IsPlain description × IsRatio list_ratio
IsProperDownload (accepts_file filename) = IsPlain filename
IsProperDownload (progresses_file filename description) = IsPlain filename × IsPlain description
IsProperDownload (finishes_file filename _ description) = IsPlain filename × IsPlain description
IsProperDownload (finishes_files _ description) = IsPlain description
IsProperDownload (finishes_download _ description) = IsPlain description
IsProperDownload (sends_download_list files) = (length files ≤ 65535) × All IsFileInformation files
IsProperDownload _ = Unit {0}

-- The status that is sent now.
abbrev pub current_download_status : TargetDownload → DownloadStatus
current_download_status s = record s.status_v { status = force_acceptance s.status_v.status }

-- The statuses that an event makes the target send: one where the timer has run out.
abbrev pub download_announced_by : TargetDownloadEvent → TargetDownload → List DownloadStatus
download_announced_by (download_timer expired) s = current_download_status s ∷ []
download_announced_by (download_timer timer_error) s = current_download_status s ∷ []
download_announced_by _ s = []

module _ (raw : RawDataOps) where
  -- The file that the host has written makes the helper library fail, and this exception is not caught:
  -- that of a media defined download may do so, but no answer file.
  abbrev pub is_fatal : DownloadKind → List ℕ → Bool
  is_fatal media_defined raw_file =
      is_uncaught (DownloadRequestFile.decode raw DownloadRequestFile.default raw_file)
  is_fatal operator_defined raw_file = false

  abbrev pub receives_fatal_file : DownloadKind → TargetDownloadEvent → Bool
  receives_fatal_file kind (file_received tftp_successful raw_file) = is_fatal kind raw_file
  receives_fatal_file kind _ = false

  abbrev pub IsDownloadFile : List ℕ → DownloadStatus → Type 0
  IsDownloadFile file status =
      (v : Arinc615aVersion) × (DownloadStatusFile.decode raw empty_download_status file
        ≡ ok (record { version = v; status = status }))

  abbrev pub IsDownloadStep : ℕ → Bool → List DownloadStatus → TargetDownloadOutcome → Type 0
  IsDownloadStep n =
      IsTargetStep (λ (s : TargetDownload). s.target_base) (IsReadyDownload n) IsDownloadFile

  abbrev pub IsDownloadOutcome :
      ℕ → Bool → Bool → List DownloadStatus → TargetDownloadOutcome → Type 0
  IsDownloadOutcome n =
      IsTargetOutcome (λ (s : TargetDownload). s.target_base) (IsReadyDownload n) IsDownloadFile

  pub download_transmit_step :
      (n : ℕ) (immediate : Bool) (s : TargetDownload)
      → IsReadyDownload n s
      → IsDownloadStep n (target_waits s.target_base) [] (transmit_download_if immediate s, [])
  unfolding trigger_status_transmission any_of collect
  download_transmit_step n false s r = idle_step _ _ _ s r
  download_transmit_step n true s r = record {
    ready = record { version = r.version; ready = r.ready };
    lively = λ w. or_left _ _ (or_true s.target_base.initialisation_operation_v);
    quiet = refl;
    carries = tt;
  }

  pub download_status_step :
      (n : ℕ) (immediate : Bool) (c : StatusCode) (d : List ℕ) (t : ℕ) (s : TargetDownload)
      → IsTransmitted c
      → IsPlain d
      → t < modulus u16
      → IsReadyDownload (suc n) s
      → IsDownloadStep n (target_waits s.target_base) [] (
        transmit_download_if immediate
            (with_download_status s (set_target_status c d t s.status_v.status)),
        [],
      )
  download_status_step n immediate c d t s k p b r =
      download_transmit_step n immediate
        (with_download_status s (set_target_status c d t s.status_v.status))
        (record {
          version = r.version;
          ready =
              with_download_status-IsReady n s.status_v _ r.ready
                (set_target_status-IsPending c d t s.status_v.status k p b r.ready.pending);
        })

  pub download_finished_step :
      (n : ℕ) (f : FinalStatus) (d : List ℕ) (s : TargetDownload)
      → IsPlain d
      → IsReadyDownload (suc n) s
      → IsDownloadStep n (target_waits s.target_base) [] (download_finished f d s, [])
  unfolding download_finished
  download_finished_step n f d s p r =
      download_status_step n true (status_code_of_final f) d 0 s (final-IsTransmitted f) p
        (omega arith) r

  pub download_weaken :
      (n : ℕ) (s : TargetDownload) → IsReadyDownload (suc n) s → IsReadyDownload n s
  download_weaken n s r = record {
    version = r.version;
    ready = IsReadyFiles-weaken n s.status_v r.ready;
  }

  base_ready :
      (n : ℕ) (s : TargetDownload) (o : TargetOutcome)
      → IsReadyDownload n s
      → IsBaseStep s.target_base o
      → IsReadyDownload n (record s { target_base = o.0 })
  base_ready n s o r h = record { version = rw h.version r.version; ready = r.ready }

  pub download_initialised_step :
      (n : ℕ) (status : TftpTransferStatus) (s : TargetDownload)
      → IsReadyDownload n s
      → IsDownloadStep n
          (target_waits s.target_base)
          []
          (with_download_base s (send_init_file_complete status s.target_base))
  download_initialised_step n status s r =
      let h = init_complete-IsBaseStep status s.target_base in
      base_step _ _ _ s.target_base _
        (base_ready n s (send_init_file_complete status s.target_base) r h) h

  pub download_sent_step :
      (n : ℕ) (sent : DownloadStatus) (status : TransferStatus) (s : TargetDownload)
      → IsReadyDownload n s
      → IsDownloadStep n
          (target_waits s.target_base)
          []
          (download_status_file_completed sent status s)
  unfolding download_status_file_completed
  download_sent_step n sent status s r =
      let h = completed-IsBaseStep sent.status status s.target_base in
      base_step _ _ _ s.target_base _ (record { version = rw h.version r.version; ready = r.ready })
        h

  pub download_request_step :
      (n : ℕ) (kind : DownloadKind) (address : ℕ) (t : RequestType) (filename : List ℕ)
      (s : TargetDownload)
      → IsReadyDownload n s
      → IsDownloadStep n
          (target_waits s.target_base)
          []
          (download_request kind address t filename s)
  unfolding download_request
  download_request_step n kind address t filename s r =
      elim (Option-cases (refusal address t (received_type kind) filename s.target_base)) [
        | inl e ↦
            rw (download_request, e)
              (call_step _ _ _ (record s { received_file_operation_v = true }) receives_request_file
                (record { version = r.version; ready = r.ready }) refl refl)
        | inr (a, e) ↦
            let q = refusal-quiet address t (received_type kind) filename s.target_base a e in
            rw (download_request, e) (call_step _ _ _ s a r q.0 q.1)
      ]
