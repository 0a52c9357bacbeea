-- ===== src/Tests.antt =====
-- Runs of the definitions at concrete inputs, and the theorems at inputs that meet their hypotheses.
mod Ber
mod Oid
mod Mib
mod Delete
mod Search
mod View
mod Snmp
mod Proc
mod Answers
mod Next
mod Onward
mod Agentx
