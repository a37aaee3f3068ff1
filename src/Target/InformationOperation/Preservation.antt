-- ===== src/Target/InformationOperation/Preservation.antt =====
-- Every event of the information operation of the target does what `IsInformationStep` says.
use arinc_615a_cli_tool_suit.Base.{
  All, Bool, List, [], any_of, any_of-behind, arith, collect, false, length, refl, true, ◌∷◌, ◌≡◌,
  ◌≤◌,
}
use arinc_615a_cli_tool_suit.Files.LoadConfigurationListFile.Items.{IsHardware}
use arinc_615a_cli_tool_suit.Files.LoadConfigurationListFile.RoundTrip.{configuration_list_encodes}
use arinc_615a_cli_tool_suit.Information.{Status, TargetHardware}
use arinc_615a_cli_tool_suit.RawData.{RawDataLaws, RawDataOps}
use arinc_615a_cli_tool_suit.Status.{
  StatusCode, invalid_status, operation_accepted, operation_completed, operation_in_progress,
  operation_in_progress_additional_info,
}
use arinc_615a_cli_tool_suit.Target.InformationOperation.{
  TargetInformation, TargetInformationOutcome, information_accepted, information_request,
  information_sent, information_status_completed, information_timer_handler,
  information_transmitted, target_information, target_information_completed,
  target_information_encoded, unknown_time,
}
use arinc_615a_cli_tool_suit.Target.InformationOperation.Events.{
  TargetInformationEvent, accepts_information, finishes_information, handle_target_information,
  hardware_sent, information_initialised, information_progresses, information_requested,
  information_status_sent, information_timer, sends_hardware,
}
use arinc_615a_cli_tool_suit.Target.InformationOperation.Steps.{
  IsInformationStep, IsProperInformation, IsReadyInformation, after_status,
  information_announced_by, information_file_step, information_finish_step, information_lift_step,
  information_progress_step, information_set_step, list_status,
}
use arinc_615a_cli_tool_suit.Target.Machine.{call_step, idle_step}
use arinc_615a_cli_tool_suit.Target.Operation.{TargetAction, protocol_file_operation, reports_sent}
use arinc_615a_cli_tool_suit.Target.Operation.BaseSteps.{
  finalise-IsBaseStep, init_complete-IsBaseStep, timer-IsBaseStep,
}
use arinc_615a_cli_tool_suit.Target.Operation.Pending.{empty-IsPlain}
use arinc_615a_cli_tool_suit.Target.Operation.Progress.{
  is_end, is_throw, status_file_of, target_waits,
}
use arinc_615a_cli_tool_suit.Target.Operation.State.{timer_run_out}
use arinc_615a_cli_tool_suit.Tftp.{TransferStatus, aborted_by_dlp, aborted_by_operator, successful}
use arinc_615a_cli_tool_suit.Tftp.ClientOperation.{TimerResult, operation_aborted}

module _ (raw : RawDataOps) (laws : RawDataLaws raw) where
  after_step :
      (c : StatusCode) (sent : Status) (s : TargetInformation)
      → sent.code ≡ c
      → IsReadyInformation s
      → IsInformationStep raw
          (target_waits s.target_base)
          (after_status c s.status_v)
          (information_transmitted raw sent s)
  unfolding information_transmitted
  after_step operation_accepted sent s e r =
      rw e
        (information_progress_step raw laws true unknown_time [] s (omega arith, empty-IsPlain) r)
  after_step operation_in_progress sent s e r =
      rw e (information_lift_step raw laws s _ r (timer-IsBaseStep s.target_base))
  after_step operation_in_progress_additional_info sent s e r =
      rw e (information_lift_step raw laws s _ r (timer-IsBaseStep s.target_base))
  after_step _ sent s e r =
      rw e (information_lift_step raw laws s _ r (finalise-IsBaseStep _ _ s.target_base))

  -- A call in front of a step that neither throws nor sends.
  front_step :
      (w : Bool) (a : TargetAction) (statuses : List Status) (o : TargetInformationOutcome)
      → is_throw a ≡ false
      → status_file_of a ≡ []
      → IsInformationStep raw w statuses o
      → IsInformationStep raw w statuses (o.0, a ∷ o.1)
  unfolding any_of collect
  front_step w a statuses o q f h = record {
    ready = h.ready;
    lively = λ k. any_of-behind is_end (target_waits o.0.target_base) (a ∷ []) o.1 (h.lively k);
    quiet = rw (q, h.quiet) refl;
    carries = rw f h.carries;
  }

  sent_step :
      (sent : Status) (status : TransferStatus) (s : TargetInformation)
      → IsReadyInformation s
      → IsInformationStep raw
          (target_waits s.target_base)
          (information_announced_by (information_status_sent sent status) s)
          (information_status_completed raw sent status s)
  unfolding information_status_completed
  sent_step sent successful s r =
      front_step _ (reports_sent sent) (after_status sent.code s.status_v) _ refl refl (
        after_step sent.code sent (record s { status_operation_v = false }) refl
          (record { version = r.version; pending = r.pending }))
  sent_step sent aborted_by_dlp s r =
      call_step _ _ _ (record s { status_operation_v = false }) _
        (record { version = r.version; pending = r.pending }) refl refl
  sent_step sent aborted_by_operator s r =
      call_step _ _ _ (record s { status_operation_v = false }) _
        (record { version = r.version; pending = r.pending }) refl refl
  sent_step sent _ s r =
      information_lift_step raw laws (record s { status_operation_v = false }) _
        (record { version = r.version; pending = r.pending })
        (finalise-IsBaseStep _ _ s.target_base)

  list_step :
      (c : StatusCode) (s : TargetInformation)
      → IsReadyInformation s
      → IsInformationStep raw
          (target_waits s.target_base)
          (list_status c s.status_v)
          (information_sent raw c s)
  unfolding information_sent
  list_step invalid_status s r =
      information_lift_step raw laws s _ r (finalise-IsBaseStep _ _ s.target_base)
  list_step _ s r =
      information_set_step raw laws _ operation_completed [] 0 s tt empty-IsPlain (omega arith) r

  hardware_sent_step :
      (status : TransferStatus) (s : TargetInformation)
      → IsReadyInformation s
      → IsInformationStep raw
          (target_waits s.target_base)
          (information_announced_by (hardware_sent status) s)
          (target_information_completed raw status s)
  unfolding target_information_completed
  hardware_sent_step successful s r =
      list_step s.status_v.code (record s { list_operation_v = false })
        (record { version = r.version; pending = r.pending })
  hardware_sent_step _ s r =
      information_finish_step raw laws _ _ (record s { list_operation_v = false })
        (record { text = omega arith; short = omega arith })
        (record { version = r.version; pending = r.pending })

  hardware_step :
      (hardware : List TargetHardware) (s : TargetInformation)
      → (length hardware ≤ 65535) × All IsHardware hardware
      → IsReadyInformation s
      → IsInformationStep raw (target_waits s.target_base) [] (target_information raw hardware s)
  unfolding target_information target_information_encoded protocol_file_operation
  hardware_step hardware s p r =
      let (bytes, writes) =
        configuration_list_encodes raw laws
          (record { version = s.target_base.protocol_version_v; targets_hardware = hardware })
          (record { version = r.version; count = p.0; targets_hardware = p.1 }) in
      rw (target_information_encoded, writes)
        (call_step _ _ _ (record s { list_operation_v = true }) _
          (record { version = r.version; pending = r.pending }) refl refl)

  timer_step :
      (result : TimerResult) (s : TargetInformation)
      → IsReadyInformation s
      → IsInformationStep raw
          (target_waits s.target_base)
          (information_announced_by (information_timer result) s)
          (information_timer_handler raw result s)
  unfolding information_timer_handler
  timer_step operation_aborted s r = idle_step _ _ _ s r
  timer_step _ s r =
      information_file_step raw laws _ (record s { target_base = timer_run_out s.target_base })
        (record { version = r.version; pending = r.pending })

  pub information_event_step :
      (e : TargetInformationEvent) (s : TargetInformation)
      → IsProperInformation e
      → IsReadyInformation s
      → IsInformationStep raw
          (target_waits s.target_base)
          (information_announced_by e s)
          (handle_target_information raw e s)
  unfolding handle_target_information information_accepted information_request
  information_event_step accepts_information s p r =
      information_set_step raw laws _ operation_accepted [] 0 s tt empty-IsPlain (omega arith) r
  information_event_step (information_progresses immediate t d) s p r =
      information_progress_step raw laws immediate t d s p r
  information_event_step (finishes_information f d) s p r =
      information_finish_step raw laws f d s p r
  information_event_step (sends_hardware hardware) s p r = hardware_step hardware s p r
  information_event_step (hardware_sent status) s p r = hardware_sent_step status s r
  information_event_step (information_initialised status) s p r =
      information_lift_step raw laws s _ r (init_complete-IsBaseStep status s.target_base)
  information_event_step (information_timer result) s p r = timer_step result s r
  information_event_step (information_status_sent sent status) s p r = sent_step sent status s r
  information_event_step information_requested s p r = call_step _ _ _ s _ r refl refl
