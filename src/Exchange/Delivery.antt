-- ===== src/Exchange/Delivery.antt =====
-- Files on their way to the host, whatever they hold.
use arinc_615a_cli_tool_suit.Base.{List, [], collect, collect-append, refl, run_events, ℕ, ◌∷◌, ◌≡◌}
use arinc_615a_cli_tool_suit.Host.Operation.{
  Description, HostAction, HostOperation, finished, finishes, stops_server, trigger_dlp_timeout,
}
use arinc_615a_cli_tool_suit.Host.UploadOperation.{handle_upload_status}
use arinc_615a_cli_tool_suit.Information.{Status}
use arinc_615a_cli_tool_suit.Status.{
  StatusCode, operation_accepted, operation_in_progress, operation_in_progress_additional_info,
}
use arinc_615a_cli_tool_suit.Target.Machine.{Carry}

module _ {State Sent : Type 0} (receive : List ℕ → State → State × List HostAction)
    (status_in : HostAction → List Sent) (IsOpen : State → Type 0) (IsFile : List ℕ → Sent → Type 0)
    (tells : (file : List ℕ) (status : Sent) (s : State)
      → IsOpen s
      → IsFile file status
      → IsOpen (receive file s).0 × (collect status_in (receive file s).1 ≡ status ∷ [])) where
  -- Where the host tells the status of each file, it tells those of all in their order.
  pub delivered_in_order :
      (files : List (List ℕ)) (statuses : List Sent) (s : State)
      → IsOpen s
      → Carry IsFile files statuses
      → collect status_in (run_events receive files s).1 ≡ statuses
  unfolding run_events collect
  delivered_in_order [] [] s l c = refl
  delivered_in_order [] (status ∷ statuses) s l c = absurd c
  delivered_in_order (file ∷ files) [] s l c = absurd c
  delivered_in_order (file ∷ files) (status ∷ statuses) s l c =
      let first = tells file status s l c.0 in
      rw
        (
          collect-append status_in (receive file s).1
              (run_events receive files (receive file s).0).1,
          first.1,
          delivered_in_order files statuses (receive file s).0 first.0 c.1,
        )
        refl

-- The switch over the code of a status, which an upload and the downloads of the host share, keeps the
-- reason of an abort, and tells the user no status.
module _ {Sent : Type 0} (status_in : HostAction → List Sent)
    (no_end : (c : StatusCode) (d : Description) → status_in (finishes c d) ≡ [])
    (no_stop : status_in stops_server ≡ []) where
  switch_lem :
      (c : StatusCode) (status : Status) (s : HostOperation)
      → status.code ≡ c
      → ((handle_upload_status status s).0.abort_reason_v ≡ s.abort_reason_v)
        × (collect status_in (handle_upload_status status s).1 ≡ [])
  unfolding handle_upload_status finished trigger_dlp_timeout collect
  switch_lem operation_accepted status s e = rw e (refl, refl)
  switch_lem operation_in_progress status s e = rw e (refl, refl)
  switch_lem operation_in_progress_additional_info status s e = rw e (refl, refl)
  switch_lem _ status s e = rw e (refl, rw (no_end, no_stop) refl)

  pub handle_upload_status_silent :
      (status : Status) (s : HostOperation)
      → ((handle_upload_status status s).0.abort_reason_v ≡ s.abort_reason_v)
        × (collect status_in (handle_upload_status status s).1 ≡ [])
  handle_upload_status_silent status s = switch_lem status.code status s refl
