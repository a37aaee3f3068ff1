-- ===== src/Target/InformationOperation/Steps.antt =====
-- What one event does to an information operation of the target whose status can be sent.
use arinc_615a_cli_tool_suit.Base.{
  All, Bool, List, [], any_of, arith, collect, false, length, ok, or_left, or_true, refl,
  text_codes, true, ℕ, ◌<◌, ◌∷◌, ◌≡◌, ◌≤◌,
}
use arinc_615a_cli_tool_suit.Files.Header.Laws.{IsSupported}
use arinc_615a_cli_tool_suit.Files.InformationStatusFile
use arinc_615a_cli_tool_suit.Files.InformationStatusFile.{InformationStatusFile}
use arinc_615a_cli_tool_suit.Files.InformationStatusFile.RoundTrip.{
  decode-encode_information_status,
}
use arinc_615a_cli_tool_suit.Files.LoadConfigurationListFile.Items.{IsHardware}
use arinc_615a_cli_tool_suit.Files.Strings.Laws.{IsPlain}
use arinc_615a_cli_tool_suit.Host.InformationOperation.{empty_status_file}
use arinc_615a_cli_tool_suit.Information.{Status}
use arinc_615a_cli_tool_suit.RawData.{RawDataLaws, RawDataOps, modulus, u16}
use arinc_615a_cli_tool_suit.Status.{
  Arinc615aVersion, FinalStatus, IsTransmitted, StatusCode, final_aborted_by_target_hardware,
  invalid_status, operation_accepted, operation_completed, status_code_of_final,
}
use arinc_615a_cli_tool_suit.Target.InformationOperation.{
  TargetInformation, TargetInformationOutcome, information_finished, information_in_progress,
  information_status_encoded, information_status_file, set_information_status,
  with_information_base,
}
use arinc_615a_cli_tool_suit.Target.InformationOperation.Events.{
  TargetInformationEvent, accepts_information, finishes_information, hardware_sent,
  information_progresses, information_status_sent, information_timer, sends_hardware,
}
use arinc_615a_cli_tool_suit.Target.Machine.{IsTargetStep, base_step, idle_step}
use arinc_615a_cli_tool_suit.Target.Operation.{
  TargetOutcome, protocol_file_operation, trigger_status_transmission_timer,
}
use arinc_615a_cli_tool_suit.Target.Operation.BaseSteps.{IsBaseStep}
use arinc_615a_cli_tool_suit.Target.Operation.Pending.{
  IsPending, final-IsTransmitted, force_acceptance-IsStatus, increment_counter-IsPending,
  progress-IsTransmitted, set_target_status-IsPending,
}
use arinc_615a_cli_tool_suit.Target.Operation.Progress.{target_waits}
use arinc_615a_cli_tool_suit.Target.Operation.State.{
  force_acceptance, progress_code, set_target_status,
}
use arinc_615a_cli_tool_suit.Tftp.{successful}
use arinc_615a_cli_tool_suit.Tftp.ClientOperation.{expired, timer_error}

abbrev pub IsProperInformation : TargetInformationEvent → Type 0
IsProperInformation (information_progresses _ estimated_time description) =
    (estimated_time < modulus u16) × IsPlain description
IsProperInformation (finishes_information _ description) = IsPlain description
IsProperInformation (sends_hardware hardware) = (length hardware ≤ 65535) × All IsHardware hardware
IsProperInformation _ = Unit {0}

pub record IsReadyInformation (s : TargetInformation) : Type 0 where
  pub version : IsSupported s.target_base.protocol_version_v
  pub pending : IsPending s.status_v

abbrev pub progress_status : Bool → ℕ → List ℕ → Status → List Status
progress_status true t d s = force_acceptance (set_target_status (progress_code d) d t s) ∷ []
progress_status false t d s = []

-- After an acceptance was sent a status in progress is, with the estimated time -1.
abbrev pub after_status : StatusCode → Status → List Status
after_status operation_accepted s = progress_status true 65535 [] s
after_status _ s = []

-- After the list was sent the completion is, unless no status was.
abbrev pub list_status : StatusCode → Status → List Status
list_status invalid_status s = []
list_status _ s = force_acceptance (set_target_status operation_completed [] 0 s) ∷ []

abbrev pub finish_status : FinalStatus → List ℕ → Status → List Status
finish_status f d s = force_acceptance (set_target_status (status_code_of_final f) d 0 s) ∷ []

-- The statuses that an event makes the target send.
abbrev pub information_announced_by : TargetInformationEvent → TargetInformation → List Status
information_announced_by accepts_information s =
    force_acceptance (set_target_status operation_accepted [] 0 s.status_v) ∷ []
information_announced_by (information_progresses immediate t d) s =
    progress_status immediate t d s.status_v
information_announced_by (finishes_information f d) s = finish_status f d s.status_v
information_announced_by (hardware_sent successful) s = list_status s.status_v.code s.status_v
information_announced_by (hardware_sent _) s =
    finish_status final_aborted_by_target_hardware
      (text_codes "Target Information transmission failed") s.status_v
information_announced_by (information_timer expired) s = force_acceptance s.status_v ∷ []
information_announced_by (information_timer timer_error) s = force_acceptance s.status_v ∷ []
information_announced_by (information_status_sent sent successful) s =
    after_status sent.code s.status_v
information_announced_by _ s = []

module _ (raw : RawDataOps) where
  abbrev pub IsInformationFile : List ℕ → Status → Type 0
  IsInformationFile file status =
      (v : Arinc615aVersion) × (InformationStatusFile.decode raw empty_status_file file
        ≡ ok (record { version = v; status = status }))

  abbrev pub IsInformationStep : Bool → List Status → TargetInformationOutcome → Type 0
  IsInformationStep =
      IsTargetStep (λ (s : TargetInformation). s.target_base) IsReadyInformation IsInformationFile

module _ (raw : RawDataOps) (laws : RawDataLaws raw) where
  pub information_file_step :
      (w : Bool) (s : TargetInformation)
      → IsReadyInformation s
      → IsInformationStep raw w (force_acceptance s.status_v ∷ []) (information_status_file raw s)
  unfolding information_status_file information_status_encoded trigger_status_transmission_timer
      protocol_file_operation any_of collect
  information_file_step w s r =
      let status = force_acceptance-IsStatus s.status_v r.pending in
      let (bytes, writes, reads) =
        decode-encode_information_status raw laws empty_status_file
          (record {
            version = s.target_base.protocol_version_v;
            status = force_acceptance s.status_v;
          })
          r.version status in
      rw (information_status_encoded, writes)
        (record {
          ready = record { version = r.version; pending = increment_counter-IsPending _ status };
          lively = λ _. or_left _ _ (or_true s.target_base.initialisation_operation_v);
          quiet = refl;
          carries = ((s.target_base.protocol_version_v, reads), tt);
        })

  pub information_set_step :
      (w : Bool) (c : StatusCode) (d : List ℕ) (t : ℕ) (s : TargetInformation)
      → IsTransmitted c
      → IsPlain d
      → t < modulus u16
      → IsReadyInformation s
      → IsInformationStep raw w
          (force_acceptance (set_target_status c d t s.status_v) ∷ [])
          (information_status_file raw (set_information_status c d t s))
  information_set_step w c d t s k p b r =
      information_file_step w (set_information_status c d t s) (record {
        version = r.version;
        pending = set_target_status-IsPending c d t s.status_v k p b r.pending;
      })

  pub information_progress_step :
      (immediate : Bool) (t : ℕ) (d : List ℕ) (s : TargetInformation)
      → (t < modulus u16) × IsPlain d
      → IsReadyInformation s
      → IsInformationStep raw
          (target_waits s.target_base)
          (progress_status immediate t d s.status_v)
          (information_in_progress raw immediate t d s)
  unfolding information_in_progress
  information_progress_step true t d s p r =
      information_set_step _ (progress_code d) d t s (progress-IsTransmitted d) p.1 p.0 r
  information_progress_step false t d s p r =
      idle_step _ _ _ (set_information_status (progress_code d) d t s) (record {
        version = r.version;
        pending =
            set_target_status-IsPending (progress_code d) d t s.status_v (progress-IsTransmitted d)
              p.1 p.0 r.pending;
      })

  pub information_finish_step :
      (f : FinalStatus) (d : List ℕ) (s : TargetInformation)
      → IsPlain d
      → IsReadyInformation s
      → IsInformationStep raw
          (target_waits s.target_base)
          (finish_status f d s.status_v)
          (information_finished raw f d s)
  unfolding information_finished
  information_finish_step f d s p r =
      information_set_step _ (status_code_of_final f) d 0 s (final-IsTransmitted f) p (omega arith)
        r

  pub information_lift_step :
      (s : TargetInformation) (o : TargetOutcome)
      → IsReadyInformation s
      → IsBaseStep s.target_base o
      → IsInformationStep raw (target_waits s.target_base) [] (with_information_base s o)
  information_lift_step s o r h =
      base_step _ _ _ s.target_base _
        (record { version = rw h.version r.version; pending = r.pending }) h
