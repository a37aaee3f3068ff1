-- ===== src/Target/Operation/Progress.antt =====
-- What the handlers of the target wait for when they return, and what they send.
use arinc_615a_cli_tool_suit.Base.{
  Bool, List, Option, [], any_of, collect, false, none, refl, some, true, ℕ, ◌||◌, ◌∷◌, ◌≡◌,
}
use arinc_615a_cli_tool_suit.Files.Header.Laws.{IsSupported}
use arinc_615a_cli_tool_suit.Files.InitializationFile
use arinc_615a_cli_tool_suit.Files.InitializationFile.{InitializationFile}
use arinc_615a_cli_tool_suit.Files.InitializationFile.RoundTrip.{decode-encode_initialization}
use arinc_615a_cli_tool_suit.Host.Operation.Progress.{is_pending}
use arinc_615a_cli_tool_suit.RawData.{RawDataLaws, RawDataOps}
use arinc_615a_cli_tool_suit.Status.{accepted}
use arinc_615a_cli_tool_suit.Target.Operation.{
  TargetAction, TargetOperation, do_start, init_file_sent, reports_end, send_init_file,
  sends_protocol_file, throws,
}
use arinc_615a_cli_tool_suit.Target.Operation.Pending.{empty-IsPlain}

abbrev pub target_waits : TargetOperation → Bool
target_waits s = s.initialisation_operation_v || is_pending s.status_transmission_timer_v

abbrev pub is_end : TargetAction → Bool
is_end (reports_end _ _) = true
is_end _ = false

abbrev pub is_throw : TargetAction → Bool
is_throw (throws _) = true
is_throw _ = false

abbrev pub status_file_of : TargetAction → List (List ℕ)
status_file_of (sends_protocol_file _ true _ file) = file ∷ []
status_file_of _ = []

-- The user of the target was told that the operation is over.
abbrev pub has_ended : List TargetAction → Bool
has_ended actions = any_of is_end actions

abbrev pub has_thrown : List TargetAction → Bool
has_thrown actions = any_of is_throw actions

-- The status files that are written to the host: those of which the transfer may be aborted.
abbrev pub status_files : List TargetAction → List (List ℕ)
status_files actions = collect status_file_of actions

module _ (raw : RawDataOps) (laws : RawDataLaws raw) where
  init_lem :
      (port : Option ℕ) (s : TargetOperation)
      → IsSupported s.protocol_version_v
      → (send_init_file raw port s).0 ≡ record s { initialisation_operation_v = true }
  unfolding send_init_file init_file_sent
  init_lem port s v =
      let file : InitializationFile = record {
        version = s.protocol_version_v;
        response = record { code = accepted; description = [] };
      } in
      let (bytes, writes, reads) =
        decode-encode_initialization raw laws InitializationFile.default file
          (record { version = v; code = tt; description = empty-IsPlain }) in
      rw (init_file_sent, writes) refl

  -- The start leaves the initialisation in progress.
  pub start_lem :
      (address : ℕ) (port : Option ℕ) (s : TargetOperation)
      → IsSupported s.protocol_version_v
      → ((do_start raw address port s).0.initialisation_operation_v ≡ true)
        × ((do_start raw address port s).0.protocol_version_v ≡ s.protocol_version_v)
  unfolding do_start
  start_lem address none s v =
      rw (init_lem none (record s { host_address_v = address }) v) (refl, refl)
  start_lem address (some port) s v =
      rw (init_lem (some port) (record s { host_address_v = address; host_port_v = port }) v)
        (refl, refl)
