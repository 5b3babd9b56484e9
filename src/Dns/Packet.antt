-- ===== src/Dns/Packet.antt =====
-- src/dns/header.rs, question.rs, and the data and accessors of packet.rs.
use mini_dns.Prelude.{ℕ, Option, none, some, List, [], ◌∷◌, max, min}
use mini_dns.Text.{Text}
use mini_dns.Dns.Record.{DnsRecord}

pub record DnsHeader : Type 0 where
  pub id : ℕ
  pub flags : ℕ
  pub questions : ℕ
  pub answers : ℕ
  pub authorities : ℕ
  pub additionals : ℕ

pub record DnsQuestion : Type 0 where
  pub qname : Text
  pub qtype : ℕ
  pub qclass : ℕ

pub record DnsPacket : Type 0 where
  pub header : DnsHeader
  pub questions : List DnsQuestion
  pub answers : List DnsRecord
  pub authorities : List DnsRecord
  pub additionals : List DnsRecord

abbrev pub max_udp_size : ℕ
max_udp_size = 512

abbrev pub max_edns_udp : ℕ
max_edns_udp = 1232

-- The UDP size of the first OPT record.
unfoldable pub first_opt : List DnsRecord → Option ℕ
first_opt [] = none
first_opt (DnsRecord.opt udp_size ∷ rs) = some udp_size
first_opt (r ∷ rs) = first_opt rs

unfoldable pub edns_udp_size : DnsPacket → Option ℕ
unfolding first_opt
edns_udp_size p = first_opt p.additionals

-- `size.clamp(MAX_UDP_SIZE, MAX_EDNS_UDP)`.
unfoldable pub clamp_udp : ℕ → ℕ
clamp_udp size = min (max size max_udp_size) max_edns_udp
