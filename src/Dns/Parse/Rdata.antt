-- ===== src/Dns/Parse/Rdata.antt =====
-- The `match record_type` of `DnsPacket::parse_record` in src/dns/packet.rs: one function for each
-- arm with code of its own, over the range of the record data in the buffer.
pub mod Total
pub mod Overrun
use mini_dns.Prelude.{
  ℕ, zero, suc, ◌+◌, Bool, true, false, Option, none, some, List, [], ◌∷◌, ◌++◌, ltb, ◌==◌, not,
  if◌then◌else◌, length,
}
use mini_dns.Text.{Text}
use mini_dns.Text.Utf8.{from_utf8_lossy}
use mini_dns.Dns.Error.{Result, ok, stuck, ◌>>=◌, ◌>>◌, truncated, invalid_rdata, Field, fail_if}
use mini_dns.Dns.Record.{
  DnsRecord, type_a, type_ns, type_cname, type_soa, type_mx, type_txt, type_aaaa, type_ptr,
  type_srv, type_opt, type_ds, type_rrsig, type_nsec, type_dnskey, type_caa,
}
use mini_dns.Dns.Buffer.{byte_at, slice, read_u16, read_u32}
use mini_dns.Dns.Parse.Name.{parse_qname}

-- The `while` loop of `parse_character_strings`, on fuel.
unfoldable pub strings_loop : ℕ → List ℕ → Text → ℕ → Result Text
strings_loop zero bytes text i = stuck
strings_loop (suc fuel) bytes text i = elim (ltb i (length bytes)) [
  | false ↦ ok text
  | true ↦ do
    len ← byte_at bytes i
    fail_if (ltb (length bytes) (i + 1 + len)) (truncated Field.txt_character_string)
    part ← slice bytes (i + 1) (i + 1 + len)
    strings_loop fuel bytes (text ++ from_utf8_lossy part) (i + 1 + len)
]

-- Each round takes a byte at least.
unfoldable pub parse_character_strings : List ℕ → Result Text
unfolding strings_loop byte_at slice from_utf8_lossy
parse_character_strings bytes = strings_loop (length bytes + 1) bytes [] 0

-- The buffer, the owner and the TTL of the record, and where its data lies.
module _ (buf : List ℕ) (domain : Text) (ttl start data_len : ℕ) where
  unfoldable pub parse_a : Result (Option DnsRecord)
  parse_a = do
    fail_if (not (data_len == 4)) (invalid_rdata type_a)
    b0 ← byte_at buf start
    b1 ← byte_at buf (start + 1)
    b2 ← byte_at buf (start + 2)
    b3 ← byte_at buf (start + 3)
    ok (some (DnsRecord.a domain (b0 ∷ b1 ∷ b2 ∷ b3 ∷ []) ttl))

  unfoldable pub parse_aaaa : Result (Option DnsRecord)
  parse_aaaa = do
    fail_if (not (data_len == 16)) (invalid_rdata type_aaaa)
    octets ← slice buf start (start + 16)
    ok (some (DnsRecord.aaaa domain octets ttl))

  unfoldable pub parse_cname : Result (Option DnsRecord)
  parse_cname = do (alias, _) ← parse_qname buf start; ok (some (DnsRecord.cname domain alias ttl))

  unfoldable pub parse_mx : Result (Option DnsRecord)
  parse_mx = do
    fail_if (ltb data_len 3) (invalid_rdata type_mx)
    preference ← read_u16 buf start
    (exchange, _) ← parse_qname buf (start + 2)
    ok (some (DnsRecord.mx domain preference exchange ttl))

  unfoldable pub parse_txt : Result (Option DnsRecord)
  parse_txt = do
    bytes ← slice buf start (start + data_len)
    text ← parse_character_strings bytes
    ok (some (DnsRecord.txt domain text ttl))

  unfoldable pub parse_ns : Result (Option DnsRecord)
  parse_ns = do
    (nameserver, _) ← parse_qname buf start
    ok (some (DnsRecord.ns domain nameserver ttl))

  unfoldable pub parse_soa : Result (Option DnsRecord)
  parse_soa = do
    (mname, after_mname) ← parse_qname buf start
    (rname, after_rname) ← parse_qname buf after_mname
    fail_if (ltb (length buf) (after_rname + 20)) (truncated Field.soa_record)
    serial ← read_u32 buf after_rname
    refresh ← read_u32 buf (after_rname + 4)
    retry ← read_u32 buf (after_rname + 8)
    expire ← read_u32 buf (after_rname + 12)
    minimum ← read_u32 buf (after_rname + 16)
    ok (some (DnsRecord.soa domain mname rname serial refresh retry expire minimum ttl))

  unfoldable pub parse_srv : Result (Option DnsRecord)
  parse_srv = do
    fail_if (ltb data_len 6) (invalid_rdata type_srv)
    priority ← read_u16 buf start
    weight ← read_u16 buf (start + 2)
    port ← read_u16 buf (start + 4)
    (target, _) ← parse_qname buf (start + 6)
    ok (some (DnsRecord.srv domain priority weight port target ttl))

  unfoldable pub parse_ptr : Result (Option DnsRecord)
  parse_ptr = do
    (ptrdname, _) ← parse_qname buf start
    ok (some (DnsRecord.ptr domain ptrdname ttl))

  unfoldable pub parse_caa : Result (Option DnsRecord)
  parse_caa = do
    fail_if (ltb data_len 2) (invalid_rdata type_caa)
    flags ← byte_at buf start
    tag_len ← byte_at buf (start + 1)
    fail_if (ltb data_len (2 + tag_len)) (invalid_rdata type_caa)
    tag ← slice buf (start + 2) (start + 2 + tag_len)
    value ← slice buf (start + 2 + tag_len) (start + data_len)
    ok (some (DnsRecord.caa domain flags (from_utf8_lossy tag) (from_utf8_lossy value) ttl))

  unfoldable pub parse_dnskey : Result (Option DnsRecord)
  parse_dnskey = do
    fail_if (ltb data_len 4) (invalid_rdata type_dnskey)
    flags ← read_u16 buf start
    protocol ← byte_at buf (start + 2)
    algorithm ← byte_at buf (start + 3)
    public_key ← slice buf (start + 4) (start + data_len)
    ok (some (DnsRecord.dnskey domain flags protocol algorithm public_key ttl))

  -- The signature is the slice from behind the signer's name, wherever that name ended.
  unfoldable pub parse_rrsig : Result (Option DnsRecord)
  parse_rrsig = do
    fail_if (ltb data_len 18) (invalid_rdata type_rrsig)
    type_covered ← read_u16 buf start
    algorithm ← byte_at buf (start + 2)
    labels ← byte_at buf (start + 3)
    original_ttl ← read_u32 buf (start + 4)
    signature_expiration ← read_u32 buf (start + 8)
    signature_inception ← read_u32 buf (start + 12)
    key_tag ← read_u16 buf (start + 16)
    (signer_name, after_signer) ← parse_qname buf (start + 18)
    signature ← slice buf after_signer (start + data_len)
    ok (
        some (
          DnsRecord.rrsig domain type_covered algorithm labels original_ttl signature_expiration
            signature_inception key_tag signer_name signature ttl))

  unfoldable pub parse_ds : Result (Option DnsRecord)
  parse_ds = do
    fail_if (ltb data_len 4) (invalid_rdata type_ds)
    key_tag ← read_u16 buf start
    algorithm ← byte_at buf (start + 2)
    digest_type ← byte_at buf (start + 3)
    digest ← slice buf (start + 4) (start + data_len)
    ok (some (DnsRecord.ds domain key_tag algorithm digest_type digest ttl))

  -- As for RRSIG, the bitmap is the slice from behind the next name.
  unfoldable pub parse_nsec : Result (Option DnsRecord)
  parse_nsec = do
    (next_name, after_name) ← parse_qname buf start
    type_bitmap ← slice buf after_name (start + data_len)
    ok (some (DnsRecord.nsec domain next_name type_bitmap ttl))

  -- The `match`: a type that is not modelled is skipped.
  unfoldable pub parse_rdata : (record_type class : ℕ) → Result (Option DnsRecord)
  parse_rdata record_type class =
      if record_type == type_a
      then parse_a
      else if record_type == type_aaaa
      then parse_aaaa
      else if record_type == type_cname
      then parse_cname
      else if record_type == type_mx
      then parse_mx
      else if record_type == type_txt
      then parse_txt
      else if record_type == type_ns
      then parse_ns
      else if record_type == type_soa
      then parse_soa
      else if record_type == type_srv
      then parse_srv
      else if record_type == type_ptr
      then parse_ptr
      else if record_type == type_caa
      then parse_caa
      else if record_type == type_opt
      then ok (some (DnsRecord.opt class))
      else if record_type == type_dnskey
      then parse_dnskey
      else if record_type == type_rrsig
      then parse_rrsig
      else if record_type == type_ds
      then parse_ds
      else if record_type == type_nsec
      then parse_nsec
      else ok none
