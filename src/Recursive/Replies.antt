-- ===== src/Recursive/Replies.antt =====
-- What a resolution of src/recursive.rs gives the client, and which replies of a server it accepts.
use mini_dns.Prelude.{
  ℕ, ◌≡◌, refl, inl, inr, Option, none, some, List, ◌++◌, arith, ◌%◌, ◌^◌, length, bit_and,
  Bool-cases,
}
use mini_dns.Text.{trim_end_dots, Text, to_lowercase}
use mini_dns.Net.{SocketAddr}
use mini_dns.DashMap.{DashMap}
use mini_dns.Dns.Error.{Result, ok, err, panic, stuck}
use mini_dns.Dns.Packet.{DnsPacket}
use mini_dns.Dns.Parse.Packet.{from_bytes}
use mini_dns.Dns.Encoder.{to_bytes, u16_bytes}
use mini_dns.Recursive.Flags.{bit_and-relayed}
use mini_dns.Recursive.Rule.{Branch, walk_rule}
use mini_dns.Recursive.Messages.{
  Attempt, answered, failed, panicked, relay, synth_servfail, servfail_packet, accept, accept_bytes,
  unframe, query_packet, is_truncated,
}
use mini_dns.Recursive.Servers.{Delegation}
use mini_dns.Recursive.{
  Network, Verdict, give, restart, descend, Run, Walk, start, resolve, max_delegation_depth,
  receive, query_one_tcp, query_one, after, take_id,
}

-- A message under the client's id, not authoritative (AA), and with recursion available (RA).
abbrev pub IsReply : ℕ → Attempt (List ℕ) → Type 0
IsReply id (answered bytes) =
    (p : DnsPacket) × (bytes ≡ to_bytes p)
    × (p.header.id ≡ id)
    × (bit_and p.header.flags 0x0400 ≡ 0)
    × (bit_and p.header.flags 0x0080 ≡ 0x0080)
IsReply id failed = ⊥
IsReply id panicked = Unit

relay-IsReply : (id : ℕ) (p : DnsPacket) → IsReply id (answered (to_bytes (relay id p)))
unfolding relay
relay-IsReply id p =
    let bits = bit_and-relayed p.header.flags in (relay id p, refl, refl, bits.0, bits.1)

servfail-IsReply :
    (name : Text) (qtype id : ℕ) → IsReply id (answered (synth_servfail name qtype id))
unfolding synth_servfail
servfail-IsReply name qtype id = (servfail_packet name qtype id, refl, refl, refl, refl)

module _ (M : DashMap Text Delegation) (N : Network M.Map) where
  abbrev Any : Walk M N → Type 0
  Any w = Unit

  verdict-IsReply :
      (name : Text) (qtype id : ℕ) (p : DnsPacket) (r : Run M N) (v : Verdict)
      → Branch M N name qtype id Any (IsReply id) p r v
  verdict-IsReply name qtype id p r give = relay-IsReply id p
  verdict-IsReply name qtype id p r restart = tt
  verdict-IsReply name qtype id p r (descend zone d) = tt

  -- Whatever the network does, a resolution ends within its bound of turns, and unless the parser
  -- panics it gives a whole message, never an error: under the id of the client, with AA clear and
  -- RA set.
  pub resolve-IsReply :
      (query : Text) (qtype id : ℕ) (r : Run M N) → IsReply id (resolve M N query qtype id r).0
  unfolding resolve
  resolve-IsReply query qtype id r =
      let name = trim_end_dots (to_lowercase query) in
      walk_rule M N name qtype id Any (IsReply id) (servfail-IsReply name qtype id) tt
        (λ w p r' h. verdict-IsReply name qtype id p r' _) max_delegation_depth (start M N name r)
        tt

  accept-id :
      (id : ℕ) (m : Result DnsPacket) (p : DnsPacket) → accept id m ≡ answered p → p.header.id ≡ id
  unfolding accept
  accept-id id (ok q) p e = ground arith
  accept-id id (err x) p e = cc
  accept-id id panic p e = cc
  accept-id id stuck p e = cc

  accept_bytes-id :
      (id : ℕ) (o : Option (List ℕ)) (p : DnsPacket)
      → accept_bytes id o ≡ answered p
      → p.header.id ≡ id
  unfolding accept_bytes
  accept_bytes-id id none p e = cc
  accept_bytes-id id (some buf) p e = accept-id id (from_bytes buf) p e

  stream-id :
      (id : ℕ) (o : Option (List ℕ)) (p : DnsPacket)
      → (elim o [ none ↦ failed | some stream ↦ accept_bytes id (unframe stream) ]) ≡ answered p
      → p.header.id ≡ id
  stream-id id none p e = cc
  stream-id id (some stream) p e = accept_bytes-id id (unframe stream) p e

  receive-id :
      (query : List ℕ) (server : SocketAddr) (id : ℕ) (o : Option (List ℕ)) (r : Run M N)
      (p : DnsPacket)
      → (receive M N query server id o r).0 ≡ answered p
      → p.header.id ≡ id
  unfolding receive query_one_tcp
  receive-id query server id none r p e = cc
  receive-id query server id (some buf) r p e = elim (Bool-cases (is_truncated buf)) [
    | inl cut ↦
        stream-id id (N.tcp server (u16_bytes (length query % 2 ^ 16) ++ query) r.world).0 p
          (rw cut at e)
    | inr whole ↦ accept-id id (from_bytes buf) p (rw whole at e)
  ]

  -- A reply that is accepted, over UDP or over TCP after a truncated one, carries the id of its query.
  pub query_one-id :
      (name : Text) (qtype : ℕ) (server : SocketAddr) (r : Run M N) (p : DnsPacket)
      → (query_one M N name qtype server r).0 ≡ answered p
      → p.header.id ≡ r.shared.next_id
  unfolding query_one
  query_one-id name qtype server r p e =
      let sent = N.udp server (to_bytes (query_packet r.shared.next_id name qtype)) r.world in
      receive-id _ server r.shared.next_id sent.0 (after M N (take_id M N r) sent.1) p e
