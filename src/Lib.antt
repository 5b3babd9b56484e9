-- ===== src/Lib.antt =====
-- mini-dns, a DNS server: the wire format, the answers from its zones, the upstream resolution, and
-- the stores and filters around them.
--
-- A message comes in as bytes. `ServerState` (src/state.rs) lets it pass the rate limiter
-- (src/ratelimit.rs), `DnsPacket::from_bytes` (src/dns/packet.rs) parses it, the blocklist
-- (src/blocklist.rs) may stop it, `build_response` (src/dns/resolver.rs) answers it from the zones of
-- src/config.rs, src/dnssec.rs signs the answers, and `DnsPacketEncoder` (src/dns/encoder.rs) writes
-- the response. A name that the zones do not know is looked up in the cache (src/cache.rs), and then
-- asked for at an upstream (src/forwarder.rs) or from the root servers (src/recursive.rs), by one task
-- for all that ask at once. Zone transfers go by the access list (src/acl.rs).
--
-- The files:
--   Prelude   the shared names; Prelude/Lists lists over native numbers, Prelude/Tests Boolean tests
--             and their ruleset, Prelude/Flags and Prelude/Pointer the bits of the flags, of a length
--             byte and of a pointer.
--   Text      Rust's strings as UTF-8 bytes; Text/Utf8 `from_utf8_lossy`, Text/Lines `lines` and
--             `trim`, Text/Parents the walk over the parent domains of a name, Text/Pieces the pieces
--             between its dots, Text/Numbers the parsing of numbers.
--   Net       addresses and sockets; Net/Parse the standard library's parser of addresses.
--   Dns       the wire format: Dns/Error the results of the parser, Dns/Record and Dns/Packet the data
--             of src/dns/record.rs, header.rs, question.rs and packet.rs, Dns/Buffer reads of a buffer,
--             Dns/Parse the parser (Name `parse_qname`, Rdata the arms of `parse_record`, Packet the
--             rest), Dns/Encoder the encoder with `udp_limit` and `to_udp_bytes` (Spelled, Remembered and
--             Compressed are on its pointers, Appends, Data and Layout on its records), Dns/Resolver
--             `build_response` and `lookup`.
--   Zones     `ZoneSet` and `ForwardRules` of src/config.rs, on LongestFirst, their sorted lists;
--             Zones/Load the zone files (`parse_line`, `load_zone_file`, `load_zones_from_settings`),
--             Zones/Upstreams `parse_upstream_addr` and `forward_rules_from_settings`.
--   Acl       `Acl::is_allowed` of src/acl.rs; Acl/Parse `Acl::parse`.
--   Blocklist src/blocklist.rs.
--   Cache     src/cache.rs, and RateLimit src/ratelimit.rs, over DashMap, the interface of the crate
--             `dashmap`, which an association list (DashMap/Assoc) satisfies.
--   Metrics   the counters of src/metrics.rs.
--   Dnssec    the key tag, the canonical form and `sign_rrset` of src/dnssec.rs.
--   Forwarder `Forwarder` and `MultiForwarder::forward` of src/forwarder.rs.
--   Recursive `RecursiveResolver` of src/recursive.rs; Recursive/Names has the names it asks for,
--             Messages the messages, Servers the root hints and the delegations; Rule a rule for its
--             loop, which Depth, Progress and Replies apply, Glue and Referral are on
--             `extract_delegation`.
--   State     `replay`, `align_edns`, `cache_ttl` and `synth_response` of src/state.rs; State/Dns64
--             `apply_dns64`, State/Signing `apply_dnssec`, State/Local `resolve_local`, State/Axfr
--             `try_axfr` on State/Owners, its sorted owners, State/Upstream `forward_and_cache`,
--             State/Flight the tasks of `forward_ctx` as a step relation, and State/Service the
--             builders, `reload` and `resolve`, in which awaiting `forward_ctx` is an argument.
--   Server    `handle_dns_stream` of src/server.rs, the messages of a connection.
--   Tests     runs at concrete inputs.
--
-- State is passed on explicitly: an operation takes the record and returns it anew. A result of the
-- parser is a value, an error of src/dns/error.rs, `panic` for an index or a slice out of range, or
-- `stuck` where a loop of the model is out of fuel. `parse_qname` has 65 * (length of the buffer + 1)
-- rounds: between two of its 64 jumps it advances by a byte at least. `parse_character_strings` has a
-- round for each byte and one more. The alias loop of `build_response` has the 16 rounds that the
-- code has, the loop of `RecursiveResolver::resolve` its 20 turns and `query_once` its 4 datagrams. A
-- connection has a round for each message and one more, or for each byte and one more.
-- Machine integers are natural numbers, with the casts to u16 and the wrapping of the counters
-- written out. Times are nanoseconds, an argument for each reading of the clock.
--
-- The network is a parameter: a function of its state for each exchange, which may fail or give any
-- bytes, and which says what other tasks did to the delegation cache meanwhile. So is the signing of
-- the crate `ring`. The tasks of `forward_ctx` interleave in any order, each access to what they share
-- being a step; elsewhere a call is one step. A call of the parser that panics ends the call.
--
-- Not modelled: the accepting loops and sockets of src/server.rs, TLS, HTTP and QUIC (src/doh.rs,
-- doq.rs, tls.rs), the command line (src/main.rs), the rendering of the metrics, the generation of
-- keys, the semaphores that only delay a query, and the settings, which the crates `serde` and `toml`
-- read. Case folding and white space are those of ASCII.
pub mod Prelude
pub mod Text
pub mod Dns
pub mod Net
pub mod Acl
pub mod DashMap
pub mod Cache
pub mod RateLimit
pub mod Metrics
pub mod Dnssec
pub mod Recursive
pub mod Forwarder
pub mod LongestFirst
pub mod Zones
pub mod Blocklist
pub mod State
pub mod Server
pub mod Tests
