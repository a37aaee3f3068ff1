-- ===== src/Target/UploadOperation/Preservation.antt =====
-- Each event keeps the states whose status can be sent.
use arinc_615a_cli_tool_suit.Base.{
  Bool, [], any_of, arith, collect, or_left, or_true, refl, suc, true, ℕ, ◌∷◌,
}
use arinc_615a_cli_tool_suit.Files.UploadStatusFile.RoundTrip.{
  IsUploadStatus, decode-encode_upload_status,
}
use arinc_615a_cli_tool_suit.Host.UploadOperation.{empty_upload_status}
use arinc_615a_cli_tool_suit.Information.{UploadStatus}
use arinc_615a_cli_tool_suit.RawData.{RawDataLaws, RawDataOps}
use arinc_615a_cli_tool_suit.Status.{operation_accepted}
use arinc_615a_cli_tool_suit.Target.Machine.{call_step, idle_step}
use arinc_615a_cli_tool_suit.Target.Operation.{
  protocol_file_operation, trigger_status_transmission_timer,
}
use arinc_615a_cli_tool_suit.Target.Operation.Pending.{
  empty-IsPlain, force_acceptance-IsStatus, increment_counter-IsPending, progress-IsTransmitted,
  set_target_status-IsPending,
}
use arinc_615a_cli_tool_suit.Target.Operation.Progress.{target_waits}
use arinc_615a_cli_tool_suit.Target.Operation.State.{progress_code, timer_run_out}
use arinc_615a_cli_tool_suit.Target.UploadOperation.{
  TargetUpload, transfer_file, upload_accepted, upload_in_progress, upload_in_progress_ratio,
  upload_status_encoded, upload_status_file, upload_timer_handler,
}
use arinc_615a_cli_tool_suit.Target.UploadOperation.Events.{
  TargetUploadEvent, accepts, accepts_load, finishes_load, finishes_loads, finishes_upload,
  handle_target_upload, initialisation_sent, progresses, progresses_load, progresses_ratio,
  request_received, status_sent, target_request, transfers_file, transmission_timer,
}
use arinc_615a_cli_tool_suit.Target.UploadOperation.Ready.{
  IsReadyLoads, IsReadyUpload, load_accepted-IsReady, load_finished-IsReady,
  load_in_progress-IsReady, loads_finished-IsReady, with_status-IsReady,
}
use arinc_615a_cli_tool_suit.Target.UploadOperation.Steps.{
  IsProperUpload, IsUploadStep, current_status, finished_step, initialised_step, received_step,
  request_step, sent_step, status_step, transmit_step, upload_announced_by, weaken,
}
use arinc_615a_cli_tool_suit.Tftp.ClientOperation.{TimerResult, operation_aborted}

module _ (raw : RawDataOps) (laws : RawDataLaws raw) where
  pub current-IsUploadStatus :
      (n : ℕ) (s : TargetUpload)
      → IsReadyUpload n s
      → IsUploadStatus
          (record { version = s.target_base.protocol_version_v; status = current_status s })
  current-IsUploadStatus n s r = record {
    version = r.version;
    status = force_acceptance-IsStatus s.status_v.status r.ready.pending;
    list_ratio = r.ready.list_ratio;
    count = omega (arith, r.ready.spare);
    loads = r.ready.loads;
  }

  file_step :
      (n : ℕ) (w : Bool) (s : TargetUpload)
      → IsReadyUpload (suc n) s
      → IsUploadStep raw n w (current_status s ∷ []) (upload_status_file raw s)
  unfolding upload_status_file upload_status_encoded trigger_status_transmission_timer
      protocol_file_operation any_of collect
  file_step n w s r =
      let (bytes, writes, reads) =
        decode-encode_upload_status raw laws empty_upload_status
          (record { version = s.target_base.protocol_version_v; status = current_status s })
          (current-IsUploadStatus (suc n) s r) in
      rw (upload_status_encoded, writes)
        (record {
          ready = record {
            version = r.version;
            ready = with_status-IsReady n s.status_v _ r.ready (
                increment_counter-IsPending _
                  (force_acceptance-IsStatus s.status_v.status r.ready.pending));
          };
          lively = λ _. or_left _ _ (or_true s.target_base.initialisation_operation_v);
          quiet = refl;
          carries = ((s.target_base.protocol_version_v, reads), tt);
        })

  pub timer_step :
      (n : ℕ) (result : TimerResult) (s : TargetUpload)
      → IsReadyUpload (suc n) s
      → IsUploadStep raw n
          (target_waits s.target_base)
          (upload_announced_by (transmission_timer result) s)
          (upload_timer_handler raw result s)
  unfolding upload_timer_handler
  timer_step n operation_aborted s r = idle_step _ _ _ s (weaken raw n s r)
  timer_step n _ s r =
      file_step n (target_waits s.target_base)
        (record s { target_base = timer_run_out s.target_base })
        (record { version = r.version; ready = r.ready })

  load_step :
      (n : ℕ) (s : TargetUpload) (status : UploadStatus)
      → IsReadyUpload (suc n) s
      → IsReadyLoads n status
      → IsUploadStep raw n (target_waits s.target_base) [] (record s { status_v = status }, [])
  load_step n s status r k =
      idle_step _ _ _ (record s { status_v = status }) (record { version = r.version; ready = k })

  pub event_step :
      (n : ℕ) (e : TargetUploadEvent) (s : TargetUpload)
      → IsProperUpload e
      → IsReadyUpload (suc n) s
      → IsUploadStep raw n
          (target_waits s.target_base)
          (upload_announced_by e s)
          (handle_target_upload raw e s)
  unfolding handle_target_upload upload_accepted upload_in_progress upload_in_progress_ratio
      transfer_file
  event_step n accepts s p r =
      status_step raw n true operation_accepted [] 0 s tt empty-IsPlain (omega arith) r
  event_step n (progresses immediate t d) s p r =
      status_step raw n immediate (progress_code d) d t s (progress-IsTransmitted d) p.1 p.0 r
  event_step n (progresses_ratio immediate t d ratio) s p r =
      transmit_step raw n immediate _ (record {
        version = r.version;
        ready = record {
          pending =
              set_target_status-IsPending (progress_code d) d t s.status_v.status
                (progress-IsTransmitted d) p.1 p.0 r.ready.pending;
          list_ratio = p.2;
          loads = r.ready.loads;
          spare = omega (arith, r.ready.spare);
        };
      })
  event_step n (accepts_load h q) s p r =
      load_step n s _ r (load_accepted-IsReady n h q s.status_v p.0 p.1 r.ready)
  event_step n (progresses_load h ratio d) s p r =
      load_step n s _ r (load_in_progress-IsReady n h ratio d s.status_v p.0 p.1 p.2 r.ready)
  event_step n (finishes_load h f d) s p r =
      load_step n s _ r (load_finished-IsReady n h f d s.status_v p.0 p.1 r.ready)
  event_step n (finishes_loads f d) s p r =
      load_step n s _ r (loads_finished-IsReady n f d s.status_v p r.ready)
  event_step n (transfers_file filename part_number) s p r =
      call_step _ _ _ s _ (weaken raw n s r) refl refl
  event_step n (finishes_upload f d) s p r = finished_step raw n f d s p r
  event_step n (initialisation_sent status) s p r =
      initialised_step raw n status s (weaken raw n s r)
  event_step n (transmission_timer result) s p r = timer_step n result s r
  event_step n (status_sent sent status) s p r = sent_step raw n sent status s (weaken raw n s r)
  event_step n (target_request address t filename) s p r =
      request_step raw n address t filename s (weaken raw n s r)
  event_step n (request_received status raw_file) s p r =
      received_step raw laws n status raw_file s r
