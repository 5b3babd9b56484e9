-- ===== src/Dnssec.antt =====
-- src/dnssec.rs: keys, key tags, and the signature of an RRset. Ed25519 is the crate `ring`, which is
-- not part of the repository: a parameter that parses a private key into a signing function. The
-- generation of keys is left out. `records[0]` panics on an empty set; no caller has one, so an RRset
-- is its first record and the others.
pub mod Canonical
use mini_dns.Prelude.{
  ℕ, ◌+◌, ◌*◌, ◌/◌, ◌%◌, ◌^◌, Bool, true, false, not, ◌&&◌, Option, none, some, List, [], ◌∷◌, ◌++◌,
  ◌==◌, if◌then◌else◌, length, map,
}
use mini_dns.Text.{Text, text_eq, is_empty, to_lowercase, split_dot, trim_end_dots}
use mini_dns.Dns.Record.{DnsRecord, record_type, domain}
use mini_dns.Dns.Encoder.{u16_bytes, u32_bytes, chunk_bytes}

abbrev pub alg_ed25519 : ℕ
alg_ed25519 = 15

abbrev pub flag_ksk : ℕ
flag_ksk = 0x0001

abbrev pub flag_zone : ℕ
flag_zone = 0x0100

pub record SigningKey : Type 0 where
  pub zone_name : Text
  pub flags : ℕ
  pub algorithm : ℕ
  pub public_key : List ℕ
  pub private_key : List ℕ

unfoldable pub dnskey_record : SigningKey → ℕ → DnsRecord
dnskey_record key ttl = DnsRecord.dnskey key.zone_name key.flags 3 key.algorithm key.public_key ttl

abbrev pub u32 : ℕ → ℕ
u32 n = n % 2 ^ 32

-- The loop over the bytes; those at even places count 256 times.
unfoldable pub accumulate : Bool → ℕ → List ℕ → ℕ
accumulate even ac [] = ac
accumulate even ac (byte ∷ rdata) =
    accumulate (not even) (u32 (ac + (if even then byte * 256 else byte))) rdata

unfoldable pub key_tag_from_rdata : List ℕ → ℕ
key_tag_from_rdata rdata = let ac = accumulate true 0 rdata in u32 (ac + ac / 65536 % 65536) % 65536

unfoldable pub key_tag : SigningKey → ℕ
key_tag key = key_tag_from_rdata (u16_bytes key.flags ++ (3 ∷ key.algorithm ∷ key.public_key))

pub record DnssecKeys : Type 0 where
  pub keys : List SigningKey

unfoldable pub is_enabled : DnssecKeys → Bool
is_enabled k = not (is_empty k.keys)

unfoldable pub dnskey_records : DnssecKeys → ℕ → List DnsRecord
dnskey_records k ttl = map (λ key. dnskey_record key ttl) k.keys

unfoldable pub canonical_label : Text → List ℕ
canonical_label label = let lower = to_lowercase label in (length lower % 256) ∷ lower

unfoldable pub canonical_labels : List Text → List ℕ
canonical_labels [] = []
canonical_labels (label ∷ labels) = canonical_label label ++ canonical_labels labels

unfoldable pub canonical_name : Text → List ℕ
canonical_name name =
    let stem = trim_end_dots name in
    if is_empty stem then 0 ∷ [] else canonical_labels (split_dot stem) ++ (0 ∷ [])

unfoldable pub canonical_rdata : DnsRecord → List ℕ
canonical_rdata (DnsRecord.a d addr t) = addr
canonical_rdata (DnsRecord.aaaa d addr t) = addr
canonical_rdata (DnsRecord.cname d alias t) = canonical_name alias
canonical_rdata (DnsRecord.ns d alias t) = canonical_name alias
canonical_rdata (DnsRecord.ptr d alias t) = canonical_name alias
canonical_rdata (DnsRecord.mx d preference exchange t) =
    u16_bytes preference ++ canonical_name exchange
canonical_rdata (DnsRecord.soa d mname rname serial refresh retry expire minimum t) =
    canonical_name mname
    ++ (canonical_name rname
        ++ (u32_bytes serial
            ++ (u32_bytes refresh ++ (u32_bytes retry ++ (u32_bytes expire ++ u32_bytes minimum)))))
canonical_rdata (DnsRecord.srv d priority weight port target t) =
    u16_bytes priority ++ (u16_bytes weight ++ (u16_bytes port ++ canonical_name target))
canonical_rdata (DnsRecord.caa d flags tag value t) = flags ∷ (length tag % 256) ∷ tag ++ value
canonical_rdata (DnsRecord.txt d text t) = chunk_bytes (length text) text
canonical_rdata (DnsRecord.dnskey d flags protocol algorithm public_key t) =
    u16_bytes flags ++ (protocol ∷ algorithm ∷ public_key)
canonical_rdata r = []

-- Owner, type, class IN, the common TTL and the data of a record.
unfoldable pub canonical_record : ℕ → DnsRecord → List ℕ
canonical_record ttl r =
    let rdata = canonical_rdata r in
    canonical_name (domain r)
    ++ (u16_bytes (record_type r)
        ++ (u16_bytes 1 ++ (u32_bytes ttl ++ (u16_bytes (length rdata % 2 ^ 16) ++ rdata))))

unfoldable pub canonical_records : ℕ → List DnsRecord → List ℕ
canonical_records ttl [] = []
canonical_records ttl (r ∷ rs) = canonical_record ttl r ++ canonical_records ttl rs

-- `filter(|l| !l.is_empty() && *l != "*").count()`.
unfoldable pub count_labels : List Text → ℕ
count_labels [] = 0
count_labels (l ∷ ls) =
    let rest = count_labels ls in
    if not (is_empty l) && not (text_eq l (b'*' ∷ [])) then rest + 1 else rest

unfoldable pub label_count : Text → ℕ
label_count owner = count_labels (split_dot owner) % 256

-- The data of an RRSIG record before its signature.
unfoldable pub rrsig_rdata :
    (type_covered algorithm labels ttl expiration inception tag : ℕ) → Text → List ℕ
rrsig_rdata type_covered algorithm labels ttl expiration inception tag signer_name =
    u16_bytes type_covered
    ++ (algorithm
        ∷ labels
        ∷ (u32_bytes ttl
            ++ (u32_bytes expiration
                ++ (u32_bytes inception ++ (u16_bytes tag ++ canonical_name signer_name)))))

-- `Ed25519KeyPair`: `from_pkcs8` and `sign`.
pub record Ed25519 : Type 0 where
  pub from_pkcs8 : List ℕ → Option (List ℕ → List ℕ)

unfoldable pub sign_with :
    SigningKey
    → (List ℕ → List ℕ)
    → DnsRecord
    → List DnsRecord
    → Text
    → (ttl inception expiration : ℕ) → DnsRecord
sign_with key sign first others signer_name ttl inception expiration =
    let type_covered = record_type first in
    let owner = domain first in
    let labels = label_count owner in
    let tag = key_tag key in
    let to_sign =
      rrsig_rdata type_covered key.algorithm labels ttl expiration inception tag signer_name
      ++ canonical_records ttl (first ∷ others) in
    DnsRecord.rrsig owner type_covered key.algorithm labels ttl expiration inception tag signer_name
      (sign to_sign) ttl

unfoldable pub sign_first :
    Ed25519
    → List SigningKey
    → DnsRecord
    → List DnsRecord
    → Text
    → (ttl inception expiration : ℕ) → Option DnsRecord
sign_first crypto [] first others signer_name ttl inception expiration = none
sign_first crypto (key ∷ keys) first others signer_name ttl inception expiration =
    elim (crypto.from_pkcs8 key.private_key) [
      | none ↦ none
      | some sign ↦ some (sign_with key sign first others signer_name ttl inception expiration)
    ]

-- The RRSIG record, or `none` where there is no key or the first does not parse.
unfoldable pub sign_rrset :
    Ed25519
    → DnssecKeys
    → DnsRecord
    → List DnsRecord
    → Text
    → (ttl inception expiration : ℕ) → Option DnsRecord
unfolding sign_first
sign_rrset crypto k first others signer_name ttl inception expiration =
    sign_first crypto k.keys first others signer_name ttl inception expiration
