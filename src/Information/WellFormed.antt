-- ===== src/Information/WellFormed.antt =====
-- The states that can be transmitted.
use arinc_615a_cli_tool_suit.Base.{◌<◌}
use arinc_615a_cli_tool_suit.Files.Strings.Laws.{IsPlain}
use arinc_615a_cli_tool_suit.Information.{Status}
use arinc_615a_cli_tool_suit.RawData.{modulus, u16}
use arinc_615a_cli_tool_suit.Status.{IsTransmitted}

pub record IsStatus (s : Status) : Type 0 where
  pub counter : s.counter < modulus u16
  pub exception_timer : s.exception_timer < modulus u16
  pub estimated_time : s.estimated_time < modulus u16
  pub code : IsTransmitted s.code
  pub description : IsPlain s.description
