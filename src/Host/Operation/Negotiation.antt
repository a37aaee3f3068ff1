-- ===== src/Host/Operation/Negotiation.antt =====
-- The options of the answer to an initialisation request.
use arinc_615a_cli_tool_suit.Base.{
  Bool, Option, arith, false, if◌then◌else◌, none, some, true, ℕ, ◌≡◌,
}
use arinc_615a_cli_tool_suit.Host.Operation.{HostOperation, accept_port, negotiate_options}

-- Options that are accepted have no checksum, and the port of the TFTP server where the host asked for
-- the port option, and no port where it did not.
negotiate_options_sound :
    (has_checksum : Bool) (port : Option ℕ) (server_port : ℕ) (s : HostOperation)
    → negotiate_options has_checksum port server_port s ≡ true
    → (has_checksum ≡ false) × (port ≡ (if s.port_option_v then some server_port else none))
unfolding negotiate_options accept_port
negotiate_options_sound true port server_port s h = cc
negotiate_options_sound false none server_port s h = ground arith
negotiate_options_sound false (some port) server_port s h = ground arith
