-- ===== src/Dns/Record.antt =====
-- src/dns/record.rs: the resource records. An address is the list of its octets.
use mini_dns.Prelude.{ℕ, List, [], ◌≡◌, refl}
use mini_dns.Text.{Text}

pub data DnsRecord : Type 0 where
  a : (domain : Text) (addr : List ℕ) (ttl : ℕ) → DnsRecord
  aaaa : (domain : Text) (addr : List ℕ) (ttl : ℕ) → DnsRecord
  cname : (domain alias : Text) (ttl : ℕ) → DnsRecord
  mx : (domain : Text) (preference : ℕ) (exchange : Text) (ttl : ℕ) → DnsRecord
  txt : (domain text : Text) (ttl : ℕ) → DnsRecord
  ns : (domain nameserver : Text) (ttl : ℕ) → DnsRecord
  soa : (domain mname rname : Text) (serial refresh retry expire minimum ttl : ℕ) → DnsRecord
  srv : (domain : Text) (priority weight port : ℕ) (target : Text) (ttl : ℕ) → DnsRecord
  ptr : (domain ptrdname : Text) (ttl : ℕ) → DnsRecord
  caa : (domain : Text) (flags : ℕ) (tag value : Text) (ttl : ℕ) → DnsRecord
  opt : (udp_size : ℕ) → DnsRecord
  dnskey :
      (domain : Text) (flags protocol algorithm : ℕ) (public_key : List ℕ) (ttl : ℕ) → DnsRecord
  rrsig :
      (domain : Text) (type_covered algorithm labels original_ttl signature_expiration : ℕ)
      (signature_inception key_tag : ℕ) (signer_name : Text) (signature : List ℕ) (ttl : ℕ)
      → DnsRecord
  ds : (domain : Text) (key_tag algorithm digest_type : ℕ) (digest : List ℕ) (ttl : ℕ) → DnsRecord
  nsec : (domain next_name : Text) (type_bitmap : List ℕ) (ttl : ℕ) → DnsRecord

abbrev pub type_a : ℕ
type_a = 1

abbrev pub type_ns : ℕ
type_ns = 2

abbrev pub type_cname : ℕ
type_cname = 5

abbrev pub type_soa : ℕ
type_soa = 6

abbrev pub type_mx : ℕ
type_mx = 15

abbrev pub type_txt : ℕ
type_txt = 16

abbrev pub type_aaaa : ℕ
type_aaaa = 28

abbrev pub type_ptr : ℕ
type_ptr = 12

abbrev pub type_srv : ℕ
type_srv = 33

abbrev pub type_opt : ℕ
type_opt = 41

abbrev pub type_ds : ℕ
type_ds = 43

abbrev pub type_rrsig : ℕ
type_rrsig = 46

abbrev pub type_nsec : ℕ
type_nsec = 47

abbrev pub type_dnskey : ℕ
type_dnskey = 48

abbrev pub type_caa : ℕ
type_caa = 257

abbrev pub type_axfr : ℕ
type_axfr = 252

unfoldable pub record_type : DnsRecord → ℕ
record_type (DnsRecord.a _ _ _) = type_a
record_type (aaaa _ _ _) = type_aaaa
record_type (cname _ _ _) = type_cname
record_type (mx _ _ _ _) = type_mx
record_type (txt _ _ _) = type_txt
record_type (ns _ _ _) = type_ns
record_type (soa _ _ _ _ _ _ _ _ _) = type_soa
record_type (srv _ _ _ _ _ _) = type_srv
record_type (ptr _ _ _) = type_ptr
record_type (caa _ _ _ _ _) = type_caa
record_type (opt _) = type_opt
record_type (dnskey _ _ _ _ _ _) = type_dnskey
record_type (rrsig _ _ _ _ _ _ _ _ _ _ _) = type_rrsig
record_type (ds _ _ _ _ _ _) = type_ds
record_type (nsec _ _ _ _) = type_nsec

unfoldable pub ttl : DnsRecord → ℕ
ttl (DnsRecord.a _ _ t) = t
ttl (aaaa _ _ t) = t
ttl (cname _ _ t) = t
ttl (mx _ _ _ t) = t
ttl (txt _ _ t) = t
ttl (ns _ _ t) = t
ttl (soa _ _ _ _ _ _ _ _ t) = t
ttl (srv _ _ _ _ _ t) = t
ttl (ptr _ _ t) = t
ttl (caa _ _ _ _ t) = t
ttl (dnskey _ _ _ _ _ t) = t
ttl (rrsig _ _ _ _ _ _ _ _ _ _ t) = t
ttl (ds _ _ _ _ _ t) = t
ttl (nsec _ _ _ t) = t
ttl (opt _) = 0

-- The domain name; empty for OPT.
unfoldable pub domain : DnsRecord → Text
domain (DnsRecord.a d _ _) = d
domain (aaaa d _ _) = d
domain (cname d _ _) = d
domain (mx d _ _ _) = d
domain (txt d _ _) = d
domain (ns d _ _) = d
domain (soa d _ _ _ _ _ _ _ _) = d
domain (srv d _ _ _ _ _) = d
domain (ptr d _ _) = d
domain (caa d _ _ _ _) = d
domain (dnskey d _ _ _ _ _) = d
domain (rrsig d _ _ _ _ _ _ _ _ _ _) = d
domain (ds d _ _ _ _ _) = d
domain (nsec d _ _ _) = d
domain (opt _) = []

unfoldable pub with_domain : Text → DnsRecord → DnsRecord
with_domain d (DnsRecord.a _ x t) = DnsRecord.a d x t
with_domain d (aaaa _ x t) = aaaa d x t
with_domain d (cname _ x t) = cname d x t
with_domain d (mx _ x y t) = mx d x y t
with_domain d (txt _ x t) = txt d x t
with_domain d (ns _ x t) = ns d x t
with_domain d (soa _ m r s f y e n t) = soa d m r s f y e n t
with_domain d (srv _ p w o x t) = srv d p w o x t
with_domain d (ptr _ x t) = ptr d x t
with_domain d (caa _ f g v t) = caa d f g v t
with_domain d (opt size) = opt size
with_domain d (dnskey _ f p g k t) = dnskey d f p g k t
with_domain d (rrsig _ c g l o e i k n s t) = rrsig d c g l o e i k n s t
with_domain d (ds _ k g y x t) = ds d k g y x t
with_domain d (nsec _ n b t) = nsec d n b t

pub record_type-with_domain :
    (d : Text) (r : DnsRecord) → record_type (with_domain d r) ≡ record_type r
unfolding record_type with_domain
record_type-with_domain d (DnsRecord.a _ _ _) = refl
record_type-with_domain d r = refl
