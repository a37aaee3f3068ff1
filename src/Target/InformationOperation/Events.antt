-- ===== src/Target/InformationOperation/Events.antt =====
-- The information operation of the target under any sequence of events. A call that the handler makes
-- while it is called is an event of its own.
use arinc_615a_cli_tool_suit.Base.{Bool, List, ℕ}
use arinc_615a_cli_tool_suit.Information.{Status, TargetHardware}
use arinc_615a_cli_tool_suit.RawData.{RawDataOps}
use arinc_615a_cli_tool_suit.Status.{FinalStatus}
use arinc_615a_cli_tool_suit.Target.InformationOperation.{
  TargetInformation, TargetInformationOutcome, information_accepted, information_finished,
  information_in_progress, information_request, information_status_completed,
  information_timer_handler, target_information, target_information_completed,
  with_information_base,
}
use arinc_615a_cli_tool_suit.Target.Operation.{send_init_file_complete}
use arinc_615a_cli_tool_suit.Tftp.{TftpTransferStatus, TransferStatus}
use arinc_615a_cli_tool_suit.Tftp.ClientOperation.{TimerResult}

pub data TargetInformationEvent : Type 0 where
  accepts_information : TargetInformationEvent
  information_progresses : Bool → ℕ → List ℕ → TargetInformationEvent
  finishes_information : FinalStatus → List ℕ → TargetInformationEvent
  sends_hardware : List TargetHardware → TargetInformationEvent
  hardware_sent : TransferStatus → TargetInformationEvent
  information_initialised : TftpTransferStatus → TargetInformationEvent
  information_timer : TimerResult → TargetInformationEvent
  information_status_sent : Status → TransferStatus → TargetInformationEvent
  information_requested : TargetInformationEvent

module _ (raw : RawDataOps) where
  unfoldable pub handle_target_information :
      TargetInformationEvent → TargetInformation → TargetInformationOutcome
  handle_target_information accepts_information s = information_accepted raw s
  handle_target_information (information_progresses immediate estimated_time description) s =
      information_in_progress raw immediate estimated_time description s
  handle_target_information (finishes_information status description) s =
      information_finished raw status description s
  handle_target_information (sends_hardware hardware) s = target_information raw hardware s
  handle_target_information (hardware_sent status) s = target_information_completed raw status s
  handle_target_information (information_initialised status) s =
      with_information_base s (send_init_file_complete status s.target_base)
  handle_target_information (information_timer result) s = information_timer_handler raw result s
  handle_target_information (information_status_sent sent status) s =
      information_status_completed raw sent status s
  handle_target_information information_requested s = information_request s
