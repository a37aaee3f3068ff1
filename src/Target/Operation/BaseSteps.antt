-- ===== src/Target/Operation/BaseSteps.antt =====
-- What the functions that all operations of the target share do.
use arinc_615a_cli_tool_suit.Base.{
  Bool-cases, List, [], any_of, any_of-behind, collect, false, inl, inr, or_left, or_true, refl,
  some, some_injective, true, ℕ, ◌==◌, ◌||◌, ◌∷◌, ◌≡◌,
}
use arinc_615a_cli_tool_suit.Information.{Status}
use arinc_615a_cli_tool_suit.ProtocolFilename.{ProtocolFileType, filename_of_string, type_value}
use arinc_615a_cli_tool_suit.Status.{
  FinalStatus, StatusCode, abort_by_dlp, abort_by_operator, operation_accepted,
  operation_in_progress, operation_in_progress_additional_info,
}
use arinc_615a_cli_tool_suit.Target.Operation.{
  TargetAction, TargetOperation, TargetOutcome, finalise, reports_sent, requests_abort,
  send_init_file_complete, trigger_status_transmission_timer,
}
use arinc_615a_cli_tool_suit.Target.Operation.Progress.{
  has_ended, has_thrown, is_end, is_throw, status_file_of, status_files, target_waits,
}
use arinc_615a_cli_tool_suit.Target.Operation.State.{
  refusal, status_transmitted, transmission_completed,
}
use arinc_615a_cli_tool_suit.Tftp.{
  RequestType, TftpTransferStatus, TransferStatus, aborted_by_dlp, aborted_by_operator,
  read_request, successful, tftp_successful, write_request,
}

-- The version stays, something is left to wait for or the operation ends, nothing is thrown, and no
-- status file is sent.
pub record IsBaseStep (s : TargetOperation) (o : TargetOutcome) : Type 0 where
  pub version : o.0.protocol_version_v ≡ s.protocol_version_v
  pub lively : target_waits s ≡ true → target_waits o.0 || has_ended o.1 ≡ true
  pub quiet : has_thrown o.1 ≡ false
  pub silent : status_files o.1 ≡ []

pub finalise-IsBaseStep :
    (f : FinalStatus) (d : List ℕ) (s : TargetOperation) → IsBaseStep s (finalise f d s)
unfolding finalise any_of collect
finalise-IsBaseStep f d s = record {
  version = refl;
  lively = λ w. or_true (s.initialisation_operation_v || false);
  quiet = refl;
  silent = refl;
}

pub timer-IsBaseStep :
    (s : TargetOperation) → IsBaseStep s (trigger_status_transmission_timer s, [])
unfolding trigger_status_transmission_timer any_of collect
timer-IsBaseStep s = record {
  version = refl;
  lively = λ w. or_left _ _ (or_true s.initialisation_operation_v);
  quiet = refl;
  silent = refl;
}

-- A call in front that is neither the end, nor thrown, nor a status file.
front-IsBaseStep :
    (a : TargetAction) (s : TargetOperation) (o : TargetOutcome)
    → is_throw a ≡ false
    → status_file_of a ≡ []
    → IsBaseStep s o
    → IsBaseStep s (o.0, a ∷ o.1)
unfolding any_of collect
front-IsBaseStep a s o q f h = record {
  version = h.version;
  lively = λ w. any_of-behind is_end (target_waits o.0) (a ∷ []) o.1 (h.lively w);
  quiet = rw (q, h.quiet) refl;
  silent = rw (f, h.silent) refl;
}

idle-IsBaseStep : (s : TargetOperation) → IsBaseStep s (s, [])
unfolding any_of collect
idle-IsBaseStep s = record {
  version = refl;
  lively = λ w. or_left _ _ w;
  quiet = refl;
  silent = refl;
}

pub init_complete-IsBaseStep :
    (status : TftpTransferStatus) (s : TargetOperation)
    → IsBaseStep s (send_init_file_complete status s)
unfolding send_init_file_complete finalise trigger_status_transmission_timer any_of collect
init_complete-IsBaseStep tftp_successful s = record {
  version = refl;
  lively = λ w. refl;
  quiet = refl;
  silent = refl;
}
init_complete-IsBaseStep _ s = record {
  version = refl;
  lively = λ w. refl;
  quiet = refl;
  silent = refl;
}

transmitted-IsBaseStep :
    (c : StatusCode) (sent : Status) (s : TargetOperation)
    → sent.code ≡ c
    → IsBaseStep s (status_transmitted sent s)
unfolding status_transmitted
transmitted-IsBaseStep operation_accepted sent s e = rw e (timer-IsBaseStep s)
transmitted-IsBaseStep operation_in_progress sent s e = rw e (timer-IsBaseStep s)
transmitted-IsBaseStep operation_in_progress_additional_info sent s e = rw e (timer-IsBaseStep s)
transmitted-IsBaseStep _ sent s e = rw e (finalise-IsBaseStep _ _ s)

pub completed-IsBaseStep :
    (sent : Status) (status : TransferStatus) (s : TargetOperation)
    → IsBaseStep s (transmission_completed sent status s)
unfolding transmission_completed
completed-IsBaseStep sent successful s =
    front-IsBaseStep (reports_sent sent) s _ refl refl
      (transmitted-IsBaseStep sent.code sent s refl)
completed-IsBaseStep sent aborted_by_dlp s =
    front-IsBaseStep (requests_abort abort_by_dlp) s _ refl refl (idle-IsBaseStep s)
completed-IsBaseStep sent aborted_by_operator s =
    front-IsBaseStep (requests_abort abort_by_operator) s _ refl refl (idle-IsBaseStep s)
completed-IsBaseStep sent _ s = finalise-IsBaseStep _ _ s

-- An answer to a request that is refused.
pub refusal-quiet :
    (address : ℕ) (t : RequestType) (expected : ProtocolFileType) (filename : List ℕ)
    (s : TargetOperation) (a : TargetAction)
    → refusal address t expected filename s ≡ some a
    → (is_throw a ≡ false) × (status_file_of a ≡ [])
unfolding refusal
refusal-quiet address read_request expected filename s a e =
    elim (Bool-cases (s.host_address_v == address)) [
      | inl h ↦ rw (← some_injective (rw h at e)) (refl, refl)
      | inr h ↦ rw (← some_injective (rw h at e)) (refl, refl)
    ]
refusal-quiet address write_request expected filename s a e =
    elim (Bool-cases (s.host_address_v == address)) [
      | inl h ↦
          elim (Bool-cases
            (type_value expected == type_value (filename_of_string filename).file_type)) [
              | inl k ↦ cc (rw (h, k) at e)
              | inr k ↦ rw (← some_injective (rw (h, k) at e)) (refl, refl)
            ]
      | inr h ↦ rw (← some_injective (rw h at e)) (refl, refl)
    ]
