-- ===== src/Snmp.antt =====
-- SNMP messages: the datagram of core/snmp.h, its decoder core/snmp_msg_in.c and the builder of
-- responses core/snmp_msg_out.c.
pub mod Packet
pub mod Parser
pub mod MsgIn
pub mod MsgOut
pub mod MsgProc
pub mod RoundTrip
