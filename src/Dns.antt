-- ===== src/Dns.antt =====
-- The modules of src/dns/: records, packets, the parser, the encoder and the zone resolver.
pub mod Error
pub mod Record
pub mod Packet
pub mod Buffer
pub mod Parse
pub mod Encoder
pub mod Resolver
