-- ===== src/Exchange/Counters.antt =====
-- The counters of the status files of an upload.
use arinc_615a_cli_tool_suit.Base.{
  All, Bool, List, Option-cases, Result, [], err, false, if◌then◌else◌, inl, inr, is_caught, length,
  not, ok, refl, suc, true, ℕ, ◌%◌, ◌++◌, ◌+◌, ◌==◌, ◌∷◌, ◌≡◌,
}
use arinc_615a_cli_tool_suit.Files.UploadRequestFile.{UploadRequestFile}
use arinc_615a_cli_tool_suit.Files.UploadStatusFile.RoundTrip.{decode-encode_upload_status}
use arinc_615a_cli_tool_suit.Host.UploadOperation.{empty_upload_status}
use arinc_615a_cli_tool_suit.Information.{Status, UploadStatus}
use arinc_615a_cli_tool_suit.Information.Operations.{
  add_load, increment_counter, set_code, set_status, upload_load,
}
use arinc_615a_cli_tool_suit.ProtocolFilename.{upload_request}
use arinc_615a_cli_tool_suit.RawData.{RawDataLaws, RawDataOps}
use arinc_615a_cli_tool_suit.Status.{FinalStatus, StatusCode, invalid_status, version_value}
use arinc_615a_cli_tool_suit.Target.Machine.{announced}
use arinc_615a_cli_tool_suit.Target.Operation.State.{
  force_acceptance, refusal, set_target_status, timer_run_out,
}
use arinc_615a_cli_tool_suit.Target.UploadOperation.{
  TargetUpload, TargetUploadOutcome, request_file_completed, request_file_read, transfer_file,
  transmit_if, upload_accepted, upload_finished, upload_in_progress, upload_in_progress_ratio,
  upload_status_encoded, upload_status_file, upload_status_file_completed, upload_target_request,
  upload_timer_handler,
}
use arinc_615a_cli_tool_suit.Target.UploadOperation.Events.{
  TargetUploadEvent, accepts, finishes_upload, handle_target_upload, progresses, progresses_ratio,
  request_received, target_request, transmission_timer,
}
use arinc_615a_cli_tool_suit.Target.UploadOperation.History.{upload_machine}
use arinc_615a_cli_tool_suit.Target.UploadOperation.Loads.{
  load_accepted, load_finished, load_in_progress, loads_finished,
}
use arinc_615a_cli_tool_suit.Target.UploadOperation.Preservation.{
  current-IsUploadStatus, event_step,
}
use arinc_615a_cli_tool_suit.Target.UploadOperation.Ready.{IsReadyUpload}
use arinc_615a_cli_tool_suit.Target.UploadOperation.Steps.{
  IsProperUpload, current_status, upload_announced_by,
}
use arinc_615a_cli_tool_suit.Tftp.{RequestType, TftpTransferStatus, tftp_successful}
use arinc_615a_cli_tool_suit.Tftp.ClientOperation.{expired, operation_aborted, timer_error}

-- The counters follow one another, modulo 2 ^ 16.
abbrev pub CountsFrom : ℕ → List UploadStatus → Type 0
CountsFrom n [] = Unit {0}
CountsFrom n (s ∷ statuses) = (s.status.counter ≡ n) × CountsFrom ((n + 1) % 65536) statuses

abbrev counter_of : TargetUpload → ℕ
counter_of s = s.status_v.status.counter

force_code_counter :
    (c : StatusCode) (s : Status) → s.code ≡ c → (force_acceptance s).counter ≡ s.counter
unfolding force_acceptance set_code
force_code_counter invalid_status s e = rw e refl
force_code_counter _ s e = rw e refl

forced_counter : (s : Status) → (force_acceptance s).counter ≡ s.counter
forced_counter s = force_code_counter s.code s refl

transmit_counter : (b : Bool) (s : TargetUpload) → counter_of (transmit_if b s) ≡ counter_of s
transmit_counter true s = refl
transmit_counter false s = refl

finished_counter :
    (f : FinalStatus) (d : List ℕ) (s : TargetUpload)
    → counter_of (upload_finished f d s) ≡ counter_of s
unfolding upload_finished set_target_status set_status
finished_counter f d s = refl

either_counter :
    (n : ℕ) (b : Bool) (x y : TargetUploadOutcome)
    → counter_of x.0 ≡ n
    → counter_of y.0 ≡ n
    → counter_of (if b then x else y).0 ≡ n
either_counter n true x y h k = h
either_counter n false x y h k = k

request_counter :
    (address : ℕ) (t : RequestType) (filename : List ℕ) (s : TargetUpload)
    → counter_of (upload_target_request address t filename s).0 ≡ counter_of s
unfolding upload_target_request
request_counter address t filename s =
    elim (Option-cases (refusal address t upload_request filename s.target_base)) [
      | inl e ↦ rw (upload_target_request, e) refl
      | inr (a, e) ↦ rw (upload_target_request, e) refl
    ]

request_read_counter :
    (r : Result UploadRequestFile) (s : TargetUpload)
    → counter_of (request_file_read r s).0 ≡ counter_of s
unfolding request_file_read
request_read_counter (err e) s = either_counter _ (is_caught e) _ _ (finished_counter _ _ s) refl
request_read_counter (ok file) s =
    either_counter _
      (not (version_value file.version == version_value s.target_base.protocol_version_v)) _ _
      (finished_counter _ _ s) refl

module _ (raw : RawDataOps) where
  received_counter :
      (status : TftpTransferStatus) (file : List ℕ) (s : TargetUpload)
      → counter_of (request_file_completed raw status file s).0 ≡ counter_of s
  unfolding request_file_completed
  received_counter tftp_successful file s = request_read_counter _ _
  received_counter _ file s = finished_counter _ _ _

  -- An event that announces no status keeps the counter.
  kept_counter :
      (e : TargetUploadEvent) (s : TargetUpload)
      → upload_announced_by e s ≡ []
      → counter_of (handle_target_upload raw e s).0 ≡ counter_of s
  unfolding handle_target_upload upload_accepted upload_in_progress upload_in_progress_ratio
      transfer_file set_target_status set_status load_accepted load_in_progress load_finished
      loads_finished add_load upload_load upload_timer_handler upload_status_file_completed
  kept_counter accepts s a = refl
  kept_counter (progresses immediate t d) s a = transmit_counter immediate _
  kept_counter (progresses_ratio immediate t d ratio) s a = transmit_counter immediate _
  kept_counter (finishes_upload f d) s a = finished_counter f d s
  kept_counter (transmission_timer operation_aborted) s a = refl
  kept_counter (transmission_timer expired) s a = cc
  kept_counter (transmission_timer timer_error) s a = cc
  kept_counter (target_request address t filename) s a = request_counter address t filename s
  kept_counter (request_received status file) s a = received_counter status file s
  kept_counter _ s a = refl

module _ (raw : RawDataOps) (laws : RawDataLaws raw) where
  file_counter :
      (n : ℕ) (s : TargetUpload)
      → IsReadyUpload n s
      → counter_of (upload_status_file raw s).0 ≡ (counter_of s + 1) % 65536
  unfolding upload_status_file upload_status_encoded increment_counter
  file_counter n s r =
      let (bytes, writes, reads) =
        decode-encode_upload_status raw laws empty_upload_status
          (record { version = s.target_base.protocol_version_v; status = current_status s })
          (current-IsUploadStatus raw laws n s r) in
      rw (upload_status_encoded, writes) (rw (forced_counter s.status_v.status) refl)

  numbered_event :
      (n : ℕ) (e : TargetUploadEvent) (s : TargetUpload) (rest : List UploadStatus)
      → IsReadyUpload n s
      → CountsFrom (counter_of (handle_target_upload raw e s).0) rest
      → CountsFrom (counter_of s) (upload_announced_by e s ++ rest)
  unfolding handle_target_upload upload_timer_handler
  numbered_event n (transmission_timer expired) s rest r h = (
    forced_counter s.status_v.status,
    rw
        (file_counter n (record s { target_base = timer_run_out s.target_base })
          (record { version = r.version; ready = r.ready }))
        at h,
  )
  numbered_event n (transmission_timer timer_error) s rest r h = (
    forced_counter s.status_v.status,
    rw
        (file_counter n (record s { target_base = timer_run_out s.target_base })
          (record { version = r.version; ready = r.ready }))
        at h,
  )
  numbered_event n (transmission_timer operation_aborted) s rest r h = h
  numbered_event n e s rest r h = rw (kept_counter raw e s refl) at h

  -- The statuses that the target sends under any sequence of events are numbered one after the other
  -- from the counter of its state, modulo 2 ^ 16: where the state and the events can be sent.
  pub statuses_are_numbered :
      (events : List TargetUploadEvent) (s : TargetUpload)
      → All IsProperUpload events
      → IsReadyUpload (length events) s
      → CountsFrom s.status_v.status.counter (announced (upload_machine raw laws) events s)
  unfolding announced
  statuses_are_numbered [] s p r = tt
  statuses_are_numbered (e ∷ events) s p r =
      numbered_event (suc (length events)) e s
        (announced (upload_machine raw laws) events (handle_target_upload raw e s).0) r
        (statuses_are_numbered events (handle_target_upload raw e s).0 p.1
          (event_step raw laws (length events) e s p.0 r).ready)
