-- ===== src/Host/InformationOperation/History.antt =====
-- The information operation of the host under any sequence of events.
use arinc_615a_cli_tool_suit.Base.{
  Bool, Bool-cases, List, inl, inr, or_left, refl, run_events, run_events_waits, true, ℕ, ◌==◌,
  ◌||◌, ◌∷◌, ◌≡◌,
}
use arinc_615a_cli_tool_suit.Host.InformationOperation.{
  InformationOperation, InformationOutcome, list_file_completed, start_information,
  status_file_completed, status_received, tftp_request, with_base,
}
use arinc_615a_cli_tool_suit.Host.InformationOperation.Progress.{
  list_failed_lively, list_read_lively, status_read_lively, tftp_request_lively,
}
use arinc_615a_cli_tool_suit.Host.Operation.{
  AbortReason, answers_only_write, check_request, do_abort, do_terminate,
  initialisation_file_completed, initialisation_file_deferred, initialise, remove, timer_handler,
}
use arinc_615a_cli_tool_suit.Host.Operation.Progress.{
  do_abort_lively, do_terminate_lively, finished_lively, has_finished, initialisation_lively,
  is_finish, is_lively, is_waiting, timer_handler_lively,
}
use arinc_615a_cli_tool_suit.RawData.{RawDataOps}
use arinc_615a_cli_tool_suit.Tftp.{
  RequestType, TftpTransferStatus, TransferStatus, read_request, tftp_successful, write_request,
}
use arinc_615a_cli_tool_suit.Tftp.ClientOperation.{TimerResult}

pub data HostEvent : Type 0 where
  user_abort user_terminate : AbortReason → HostEvent
  initialisation_completion : TransferStatus → List ℕ → HostEvent
  server_request : RequestType → List ℕ → ℕ → HostEvent
  status_completion : ℕ → TftpTransferStatus → List ℕ → HostEvent
  list_completion : Bool → TftpTransferStatus → List ℕ → HostEvent
  initialisation_deferral : ℕ → HostEvent
  timer_result : TimerResult → HostEvent

module _ (raw : RawDataOps) where
  unfoldable pub handle_event : HostEvent → InformationOperation → InformationOutcome
  handle_event (user_abort reason) s = with_base s (do_abort reason s.base)
  handle_event (user_terminate reason) s = with_base s (do_terminate reason s.base)
  handle_event (initialisation_completion status raw_file) s =
      with_base s (initialisation_file_completed raw status raw_file s.base)
  handle_event (server_request request_type filename operation) s =
      tftp_request request_type filename operation s
  handle_event (status_completion operation status raw_file) s =
      status_file_completed raw operation status raw_file s
  handle_event (list_completion integrity status raw_file) s =
      list_file_completed raw integrity status raw_file s
  handle_event (initialisation_deferral wait_time) s =
      with_base s (initialisation_file_deferred wait_time s.base)
  handle_event (timer_result result) s = with_base s (timer_handler result s.base)

  abbrev pub run : List HostEvent → InformationOperation → InformationOutcome
  run = run_events handle_event

module _ (raw : RawDataOps) where
  status_received_lively :
      (status : TftpTransferStatus) (raw_file : List ℕ) (s : InformationOperation)
      → is_waiting s.base ≡ true
      → let outcome = status_received raw status raw_file s in
        is_lively outcome.0.base outcome.1 ≡ true
  unfolding status_received
  status_received_lively tftp_successful raw_file s h = status_read_lively _ s h
  status_received_lively _ raw_file s h = finished_lively _ _ s.base

  status_completed_lively :
      (operation : ℕ) (status : TftpTransferStatus) (raw_file : List ℕ) (s : InformationOperation)
      → is_waiting s.base ≡ true
      → let outcome = status_file_completed raw operation status raw_file s in
        is_lively outcome.0.base outcome.1 ≡ true
  unfolding status_file_completed
  status_completed_lively operation status raw_file s h =
      elim (Bool-cases ((remove operation s.status_file_operations_v).0 == 1)) [
        | inl e ↦ rw e (status_received_lively status raw_file _ h)
        | inr e ↦ rw e (finished_lively _ _ s.base)
      ]

  list_completed_lively :
      (integrity : Bool) (status : TftpTransferStatus) (raw_file : List ℕ)
      (s : InformationOperation)
      → is_waiting s.base ≡ true
      → let outcome = list_file_completed raw integrity status raw_file s in
        is_lively outcome.0.base outcome.1 ≡ true
  unfolding list_file_completed
  list_completed_lively integrity tftp_successful raw_file s h = list_read_lively _ integrity _ h
  list_completed_lively integrity _ raw_file s h = list_failed_lively _ h

  handle_lively :
      (e : HostEvent) (s : InformationOperation)
      → is_waiting s.base ≡ true
      → is_lively (handle_event raw e s).0.base (handle_event raw e s).1 ≡ true
  unfolding handle_event initialisation_file_deferred
  handle_lively (user_abort reason) s h = do_abort_lively reason s.base h
  handle_lively (user_terminate reason) s h = do_terminate_lively reason s.base
  handle_lively (initialisation_completion status raw_file) s h =
      initialisation_lively raw status raw_file s.base
  handle_lively (server_request t filename operation) s h =
      tftp_request_lively t filename operation s h
  handle_lively (status_completion operation status raw_file) s h =
      status_completed_lively operation status raw_file s h
  handle_lively (list_completion integrity status raw_file) s h =
      list_completed_lively integrity status raw_file s h
  handle_lively (initialisation_deferral wait_time) s h = or_left _ _ h
  handle_lively (timer_result result) s h = timer_handler_lively result s.base h

  -- From a state in which something is waited for, any sequence of events leads to one, unless the user
  -- was told on the way that the operation is finished.
  pub waits_or_has_finished :
      (events : List HostEvent) (s : InformationOperation)
      → is_waiting s.base ≡ true
      → is_waiting (run raw events s).0.base || has_finished (run raw events s).1 ≡ true
  waits_or_has_finished =
      run_events_waits (handle_event raw) (λ s. is_waiting s.base) is_finish handle_lively

  -- An operation that was started has its initialisation in progress or its timer armed after any
  -- sequence of events, unless the user was told that it is finished.
  pub started_waits_or_has_finished :
      (events : List HostEvent) (s : InformationOperation)
      → let outcome = run raw events (start_information s).0 in
        is_waiting outcome.0.base || has_finished outcome.1 ≡ true
  unfolding start_information initialise
  started_waits_or_has_finished events s = waits_or_has_finished events (start_information s).0 refl

-- A read request for a file of this target is answered with an error, and then handled as the write
-- request for the same file.
read_request_is_handled :
    (filename : List ℕ) (operation : ℕ) (s : InformationOperation)
    → check_request filename s.base ≡ true
    → let written = tftp_request write_request filename operation s in
      tftp_request read_request filename operation s ≡ (written.0, answers_only_write ∷ written.1)
unfolding tftp_request
read_request_is_handled filename operation s h = rw h refl
