-- ===== src/Snmp/RoundTrip.antt =====
-- The decoder of core/snmp_msg_in.c on the responses of core/snmp_msg_out.c.
pub mod Fields
pub mod VarBinds
pub mod Loop
pub mod Headers
pub mod Bound
pub mod Response
