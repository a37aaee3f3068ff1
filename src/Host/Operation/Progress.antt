-- ===== src/Host/Operation/Progress.antt =====
-- What the shared handlers of the host operations wait for when they return.
use arinc_615a_cli_tool_suit.Base.{
  Bool, Bool-cases, List, Option, Result, [], any_of, any_of-behind, err, false, if◌then◌else◌, inl,
  inr, none, not, ok, or_left, or_true, some, true, ℕ, ◌||◌, ◌∷◌, ◌≡◌,
}
use arinc_615a_cli_tool_suit.Files.InitializationFile.{InitializationFile}
use arinc_615a_cli_tool_suit.Host.Operation.{
  AbortReason, Description, HostAction, HostOperation, HostOutcome, aborts_initialisation, do_abort,
  do_terminate, finished, finishes, handle_response, initialisation_file_completed, is_aborted,
  is_no_abort, no_abort, reports_response, response_read, timer_handler, trigger_dlp_timeout,
}
use arinc_615a_cli_tool_suit.RawData.{RawDataOps}
use arinc_615a_cli_tool_suit.Status.{
  Arinc615aVersion, OperationAcceptanceStatusCode, StatusCode, accepted, deferred, denied,
  not_supported,
}
use arinc_615a_cli_tool_suit.Tftp.{TransferStatus, successful}
use arinc_615a_cli_tool_suit.Tftp.ClientOperation.{
  TimerResult, expired, operation_aborted, timer_error,
}

abbrev pub is_pending : Option ℕ → Bool
is_pending none = false
is_pending (some n) = true

-- The initialisation is in progress, or the timer is armed.
abbrev pub is_waiting : HostOperation → Bool
is_waiting s = s.initialisation_operation_v || is_pending s.timer_v

abbrev pub is_finish : HostAction → Bool
is_finish (finishes _ _) = true
is_finish _ = false

abbrev pub has_finished : List HostAction → Bool
has_finished actions = any_of is_finish actions

-- Something is waited for, or the user was told that the operation is finished.
abbrev pub is_lively : HostOperation → List HostAction → Bool
is_lively s actions = is_waiting s || has_finished actions

pub finished_lively :
    (c : StatusCode) (d : Description) (s : HostOperation)
    → is_lively (finished c d s).0 (finished c d s).1 ≡ true
unfolding finished any_of
finished_lively c d s = or_true (s.initialisation_operation_v || false)

pub triggered_lively :
    (n : ℕ) (s : HostOperation) (actions : List HostAction)
    → is_lively (trigger_dlp_timeout n s) actions ≡ true
unfolding trigger_dlp_timeout
triggered_lively n s actions =
    or_left (s.initialisation_operation_v || true) (has_finished actions)
      (or_true s.initialisation_operation_v)

either_lively :
    (b : Bool) (x y : HostOutcome)
    → is_lively x.0 x.1 ≡ true
    → is_lively y.0 y.1 ≡ true
    → is_lively (if b then x else y).0 (if b then x else y).1 ≡ true
either_lively true x y h k = h
either_lively false x y h k = k

pub do_abort_lively :
    (reason : AbortReason) (s : HostOperation)
    → is_waiting s ≡ true
    → is_lively (do_abort reason s).0 (do_abort reason s).1 ≡ true
unfolding do_abort
do_abort_lively reason s h =
    either_lively (not (is_no_abort s.abort_reason_v)) _ _ (or_left _ _ h) (or_left _ _ h)

pub do_terminate_lively :
    (reason : AbortReason) (s : HostOperation)
    → is_lively (do_terminate reason s).0 (do_terminate reason s).1 ≡ true
unfolding do_terminate
do_terminate_lively reason s =
    any_of-behind is_finish _
      (if s.initialisation_operation_v then aborts_initialisation ∷ [] else []) _
      (finished_lively _ _ s)

handle_response_lively :
    (v : Arinc615aVersion) (c : OperationAcceptanceStatusCode) (d : List ℕ) (s : HostOperation)
    → let outcome = handle_response v (record { code = c; description = d }) s in
      is_lively outcome.0 outcome.1 ≡ true
unfolding handle_response
handle_response_lively v accepted d s = triggered_lively 0 (record s { protocol_version_v = v }) []
handle_response_lively v denied d s = finished_lively _ _ s
handle_response_lively v not_supported d s = finished_lively _ _ s
handle_response_lively v deferred d s = finished_lively _ _ s

response_read_lively :
    (r : Result InitializationFile) (s : HostOperation)
    → is_lively (response_read r s).0 (response_read r s).1 ≡ true
unfolding response_read
response_read_lively (err e) s = finished_lively _ _ s
response_read_lively (ok file) s =
    any_of-behind is_finish _ (reports_response file.response ∷ []) _
      (handle_response_lively file.version file.response.code file.response.description s)

pub timer_handler_lively :
    (result : TimerResult) (s : HostOperation)
    → is_waiting s ≡ true
    → is_lively (timer_handler result s).0 (timer_handler result s).1 ≡ true
unfolding timer_handler
timer_handler_lively operation_aborted s h = or_left _ _ h
timer_handler_lively timer_error s h = finished_lively _ _ s
timer_handler_lively expired s h = finished_lively _ _ s

pub is_aborted_lively :
    (s : HostOperation)
    → is_waiting s ≡ true
    → is_lively (is_aborted s).1.0 (is_aborted s).1.1 ≡ true
unfolding is_aborted
is_aborted_lively s h = elim (Bool-cases (is_no_abort s.abort_reason_v)) [
  | inl e ↦ rw e (or_left _ _ h)
  | inr e ↦ rw e (triggered_lively 0 (record s { abort_reason_v = no_abort }) _)
]

module _ (raw : RawDataOps) where
  pub initialisation_lively :
      (status : TransferStatus) (raw_file : List ℕ) (s : HostOperation)
      → let outcome = initialisation_file_completed raw status raw_file s in
        is_lively outcome.0 outcome.1 ≡ true
  unfolding initialisation_file_completed
  initialisation_lively successful raw_file s = response_read_lively _ _
  initialisation_lively _ raw_file s = finished_lively _ _ _
