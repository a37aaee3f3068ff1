-- ===== src/Target/UploadOperation/Steps.antt =====
-- What one event does to an upload operation of the target whose status can be sent.
use arinc_615a_cli_tool_suit.Base.{
  Bool, Bool-cases, IsContained, List, Option-cases, Result, [], any_of, arith, collect, err, false,
  inl, inr, is_caught, not, ok, or_left, or_true, refl, suc, true, ℕ, ◌<◌, ◌==◌, ◌∷◌, ◌≡◌,
}
use arinc_615a_cli_tool_suit.Files.Failures.{decode_upload_request-IsContained}
use arinc_615a_cli_tool_suit.Files.Ratio.Laws.{IsRatio}
use arinc_615a_cli_tool_suit.Files.Strings.Laws.{IsPlain}
use arinc_615a_cli_tool_suit.Files.UploadRequestFile
use arinc_615a_cli_tool_suit.Files.UploadRequestFile.{UploadRequestFile}
use arinc_615a_cli_tool_suit.Files.UploadStatusFile
use arinc_615a_cli_tool_suit.Files.UploadStatusFile.{UploadStatusFile}
use arinc_615a_cli_tool_suit.Host.UploadOperation.{empty_upload_status}
use arinc_615a_cli_tool_suit.Information.{UploadStatus}
use arinc_615a_cli_tool_suit.ProtocolFilename.{upload_request}
use arinc_615a_cli_tool_suit.RawData.{RawDataLaws, RawDataOps, modulus, u16}
use arinc_615a_cli_tool_suit.Status.{
  Arinc615aVersion, FinalStatus, IsTransmitted, StatusCode, status_code_of_final, version_value,
}
use arinc_615a_cli_tool_suit.Target.Machine.{
  IsTargetStep, base_step, call_step, either_step, idle_step,
}
use arinc_615a_cli_tool_suit.Target.Operation.{
  TargetOutcome, receives_request_file, send_init_file_complete, trigger_status_transmission,
}
use arinc_615a_cli_tool_suit.Target.Operation.BaseSteps.{
  IsBaseStep, completed-IsBaseStep, init_complete-IsBaseStep, refusal-quiet,
}
use arinc_615a_cli_tool_suit.Target.Operation.Pending.{
  final-IsTransmitted, set_target_status-IsPending,
}
use arinc_615a_cli_tool_suit.Target.Operation.Progress.{target_waits}
use arinc_615a_cli_tool_suit.Target.Operation.State.{force_acceptance, refusal, set_target_status}
use arinc_615a_cli_tool_suit.Target.UploadOperation.{
  TargetUpload, TargetUploadOutcome, request_file_completed, request_file_read, transmit_if,
  upload_finished, upload_status_file_completed, upload_target_request, with_status,
  with_target_base,
}
use arinc_615a_cli_tool_suit.Target.UploadOperation.Events.{
  TargetUploadEvent, accepts_load, finishes_load, finishes_loads, finishes_upload, progresses,
  progresses_load, progresses_ratio, transmission_timer,
}
use arinc_615a_cli_tool_suit.Target.UploadOperation.Ready.{
  IsReady-weaken, IsReadyUpload, with_status-IsReady,
}
use arinc_615a_cli_tool_suit.Tftp.{RequestType, TftpTransferStatus, TransferStatus, tftp_successful}
use arinc_615a_cli_tool_suit.Tftp.ClientOperation.{expired, timer_error}

-- The event comes from a user who gives texts and numbers that can be sent.
abbrev pub IsProperUpload : TargetUploadEvent → Type 0
IsProperUpload (progresses _ estimated_time description) =
    (estimated_time < modulus u16) × IsPlain description
IsProperUpload (progresses_ratio _ estimated_time description list_ratio) =
    (estimated_time < modulus u16) × IsPlain description × IsRatio list_ratio
IsProperUpload (accepts_load header_filename part_number) =
    IsPlain header_filename × IsPlain part_number
IsProperUpload (progresses_load header_filename ratio description) =
    IsPlain header_filename × IsRatio ratio × IsPlain description
IsProperUpload (finishes_load header_filename _ description) =
    IsPlain header_filename × IsPlain description
IsProperUpload (finishes_loads _ description) = IsPlain description
IsProperUpload (finishes_upload _ description) = IsPlain description
IsProperUpload _ = Unit {0}

-- The status that is sent now.
abbrev pub current_status : TargetUpload → UploadStatus
current_status s = record s.status_v { status = force_acceptance s.status_v.status }

-- The statuses that an event makes the target send: one where the timer has run out.
abbrev pub upload_announced_by : TargetUploadEvent → TargetUpload → List UploadStatus
upload_announced_by (transmission_timer expired) s = current_status s ∷ []
upload_announced_by (transmission_timer timer_error) s = current_status s ∷ []
upload_announced_by _ s = []

module _ (raw : RawDataOps) where
  abbrev pub IsStatusFile : List ℕ → UploadStatus → Type 0
  IsStatusFile file status =
      (v : Arinc615aVersion) × (UploadStatusFile.decode raw empty_upload_status file
        ≡ ok (record { version = v; status = status }))

  abbrev pub IsUploadStep : ℕ → Bool → List UploadStatus → TargetUploadOutcome → Type 0
  IsUploadStep n = IsTargetStep (λ (s : TargetUpload). s.target_base) (IsReadyUpload n) IsStatusFile

  pub transmit_step :
      (n : ℕ) (immediate : Bool) (s : TargetUpload)
      → IsReadyUpload n s
      → IsUploadStep n (target_waits s.target_base) [] (transmit_if immediate s, [])
  unfolding trigger_status_transmission any_of collect
  transmit_step n false s r = idle_step _ _ _ s r
  transmit_step n true s r = record {
    ready = record { version = r.version; ready = r.ready };
    lively = λ w. or_left _ _ (or_true s.target_base.initialisation_operation_v);
    quiet = refl;
    carries = tt;
  }

  pub status_step :
      (n : ℕ) (immediate : Bool) (c : StatusCode) (d : List ℕ) (t : ℕ) (s : TargetUpload)
      → IsTransmitted c
      → IsPlain d
      → t < modulus u16
      → IsReadyUpload (suc n) s
      → IsUploadStep n
          (target_waits s.target_base)
          []
          (transmit_if immediate (with_status s (set_target_status c d t s.status_v.status)), [])
  status_step n immediate c d t s k p b r =
      transmit_step n immediate (with_status s (set_target_status c d t s.status_v.status))
        (record {
          version = r.version;
          ready =
              with_status-IsReady n s.status_v _ r.ready
                (set_target_status-IsPending c d t s.status_v.status k p b r.ready.pending);
        })

  pub finished_step :
      (n : ℕ) (f : FinalStatus) (d : List ℕ) (s : TargetUpload)
      → IsPlain d
      → IsReadyUpload (suc n) s
      → IsUploadStep n (target_waits s.target_base) [] (upload_finished f d s, [])
  unfolding upload_finished
  finished_step n f d s p r =
      status_step n true (status_code_of_final f) d 0 s (final-IsTransmitted f) p (omega arith) r

  pub weaken : (n : ℕ) (s : TargetUpload) → IsReadyUpload (suc n) s → IsReadyUpload n s
  weaken n s r = record { version = r.version; ready = IsReady-weaken n s.status_v r.ready }

  base_ready :
      (n : ℕ) (s : TargetUpload) (o : TargetOutcome)
      → IsReadyUpload n s
      → IsBaseStep s.target_base o
      → IsReadyUpload n (record s { target_base = o.0 })
  base_ready n s o r h = record { version = rw h.version r.version; ready = r.ready }

  pub initialised_step :
      (n : ℕ) (status : TftpTransferStatus) (s : TargetUpload)
      → IsReadyUpload n s
      → IsUploadStep n
          (target_waits s.target_base)
          []
          (with_target_base s (send_init_file_complete status s.target_base))
  initialised_step n status s r =
      let h = init_complete-IsBaseStep status s.target_base in
      base_step _ _ _ s.target_base _
        (base_ready n s (send_init_file_complete status s.target_base) r h) h

  pub sent_step :
      (n : ℕ) (sent : UploadStatus) (status : TransferStatus) (s : TargetUpload)
      → IsReadyUpload n s
      → IsUploadStep n (target_waits s.target_base) [] (upload_status_file_completed sent status s)
  unfolding upload_status_file_completed
  sent_step n sent status s r =
      let h = completed-IsBaseStep sent.status status s.target_base in
      base_step _ _ _ s.target_base _ (record { version = rw h.version r.version; ready = r.ready })
        h

  pub request_step :
      (n : ℕ) (address : ℕ) (t : RequestType) (filename : List ℕ) (s : TargetUpload)
      → IsReadyUpload n s
      → IsUploadStep n (target_waits s.target_base) [] (upload_target_request address t filename s)
  unfolding upload_target_request
  request_step n address t filename s r =
      elim (Option-cases (refusal address t upload_request filename s.target_base)) [
        | inl e ↦
            rw (upload_target_request, e)
              (call_step _ _ _ (record s { request_file_operation_v = true }) receives_request_file
                (record { version = r.version; ready = r.ready }) refl refl)
        | inr (a, e) ↦
            let q = refusal-quiet address t upload_request filename s.target_base a e in
            rw (upload_target_request, e) (call_step _ _ _ s a r q.0 q.1)
      ]

  request_read_step :
      (n : ℕ) (file : Result UploadRequestFile) (s : TargetUpload)
      → IsContained file
      → IsReadyUpload (suc n) s
      → IsUploadStep n (target_waits s.target_base) [] (request_file_read file s)
  unfolding request_file_read
  request_read_step n (err e) s h r = elim (Bool-cases (is_caught e)) [
    | inl c ↦ rw c (finished_step n _ _ s (record { text = omega arith; short = omega arith }) r)
    | inr c ↦ let never : true ≡ false = rw c at h.contained in cc
  ]
  request_read_step n (ok file) s h r =
      either_step _ _ _ _
        (not (version_value file.version == version_value s.target_base.protocol_version_v)) _ _
        (finished_step n _ _ s (record { text = omega arith; short = omega arith }) r)
        (call_step _ _ _ s _ (weaken n s r) refl refl)

  pub received_step :
      (laws : RawDataLaws raw) (n : ℕ) (status : TftpTransferStatus) (raw_file : List ℕ)
      (s : TargetUpload)
      → IsReadyUpload (suc n) s
      → IsUploadStep n
          (target_waits s.target_base)
          []
          (request_file_completed raw status raw_file s)
  unfolding request_file_completed
  received_step laws n tftp_successful raw_file s r =
      request_read_step n _ (record s { request_file_operation_v = false })
        (decode_upload_request-IsContained raw laws UploadRequestFile.default raw_file)
        (record { version = r.version; ready = r.ready })
  received_step laws n _ raw_file s r =
      finished_step n _ _ (record s { request_file_operation_v = false })
        (record { text = omega arith; short = omega arith })
        (record { version = r.version; ready = r.ready })
