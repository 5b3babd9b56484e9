-- ===== src/Dns/Parse.antt =====
-- The parser of src/dns/packet.rs, bottom up: names, record data, records and packets.
pub mod Name
pub mod Rdata
pub mod Packet
