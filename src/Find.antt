-- ===== src/Find.antt =====
-- lib/arinc_615a/find: the packets of the FIND operation.
pub mod Packet
