-- ===== src/Ber.antt =====
-- The BER codec of SNMP, core/snmp_encoder.c and core/snmp_decoder.c.
pub mod Integer
pub mod Length
pub mod ObjectId
pub mod Value
