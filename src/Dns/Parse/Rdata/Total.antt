-- ===== src/Dns/Parse/Rdata/Total.antt =====
-- The arms of `parse_record` in src/dns/packet.rs stay inside the buffer, apart from the slices
-- behind a name in RRSIG and NSEC.
use mini_dns.Prelude.{
  ℕ, zero, suc, ◌+◌, ◌-◌, ◌≤◌, ◌<◌, ◌≡◌, refl, ◌≢◌, ◌⊎◌, inl, inr, List, [], ◌++◌, arith, length,
  take, drop,
}
use mini_dns.Text.{Text}
use mini_dns.Text.Utf8.{from_utf8_lossy}
use mini_dns.Dns.Error.{Result, ok, err, panic, stuck, DnsError, Ensures}
use mini_dns.Dns.Record.{type_rrsig, type_nsec}
use mini_dns.Dns.Buffer.{slice, byte_at-cases, slice-ok, read_u16-ok, read_u32-ok}
use mini_dns.Dns.Parse.Name.{parse_qname, parse_qname-bounds}
use mini_dns.Dns.Parse.Rdata.{
  strings_loop, parse_character_strings, parse_a, parse_aaaa, parse_cname, parse_mx, parse_txt,
  parse_ns, parse_soa, parse_srv, parse_ptr, parse_caa, parse_dnskey, parse_ds, parse_rdata,
}

-- The call returns, with a value or an error of the parser.
abbrev pub Returns {ℓ} : {A : Type ℓ} → Result A → Type 0
Returns r = Ensures (λ _. Unit) r

Result-split :
    (r : Result (Text × ℕ)) (P : Text × ℕ → Type 0)
    → Ensures P r
    → ((e : DnsError) × (r ≡ err e)) ⊎ ((n : Text) × (end : ℕ) × (r ≡ ok (n, end)) × P (n, end))
Result-split (ok (n, end)) P h = inr (n, end, refl, h)
Result-split (err e) P h = inl (e, refl)
Result-split panic P h = elim h [ ]
Result-split stuck P h = elim h [ ]

-- A name is refused, or it ends inside the buffer.
pub parse_qname-cases :
    (buf : List ℕ) (offset : ℕ)
    → ((e : DnsError) × (parse_qname buf offset ≡ err e))
      ⊎ ((n : Text) × (end : ℕ) × (parse_qname buf offset ≡ ok (n, end))
          × ((offset < end) × (end ≤ length buf)))
parse_qname-cases buf offset =
    Result-split (parse_qname buf offset) _ (parse_qname-bounds buf offset)

strings_loop-Returns :
    (fuel : ℕ) (bytes : List ℕ) (text : Text) (i : ℕ)
    → i ≤ length bytes
    → length bytes < i + fuel
    → Returns (strings_loop fuel bytes text i)
unfolding strings_loop slice
strings_loop-Returns zero bytes text i h k = absurd (omega arith)
strings_loop-Returns (suc fuel) bytes text i h k = elim (byte_at-cases bytes i) [
  | inl outside ↦ ground arith
  | inr (len, at_len) ↦
      let part = take (i + 1 + len - (i + 1)) (drop (i + 1) bytes) in
      ground (arith, strings_loop-Returns fuel bytes (text ++ from_utf8_lossy part) (i + 1 + len))
]

parse_character_strings-Returns : (bytes : List ℕ) → Returns (parse_character_strings bytes)
unfolding parse_character_strings
parse_character_strings-Returns bytes =
    strings_loop-Returns (length bytes + 1) bytes [] 0 (omega arith) (omega arith)

module _ (buf : List ℕ) (domain : Text) (ttl start data_len : ℕ)
    (fits : start + data_len ≤ length buf) where
  parse_a-Returns : Returns (parse_a buf domain ttl start data_len)
  unfolding parse_a
  parse_a-Returns = ground (
    arith,
    byte_at-cases buf start,
    byte_at-cases buf (start + 1),
    byte_at-cases buf (start + 2),
    byte_at-cases buf (start + 3),
  )

  parse_aaaa-Returns : Returns (parse_aaaa buf domain ttl start data_len)
  unfolding parse_aaaa slice
  parse_aaaa-Returns = ground arith

  parse_cname-Returns : Returns (parse_cname buf domain ttl start data_len)
  unfolding parse_cname
  parse_cname-Returns = ground (arith, parse_qname-cases buf start)

  parse_ns-Returns : Returns (parse_ns buf domain ttl start data_len)
  unfolding parse_ns
  parse_ns-Returns = ground (arith, parse_qname-cases buf start)

  parse_ptr-Returns : Returns (parse_ptr buf domain ttl start data_len)
  unfolding parse_ptr
  parse_ptr-Returns = ground (arith, parse_qname-cases buf start)

  parse_mx-Returns : Returns (parse_mx buf domain ttl start data_len)
  unfolding parse_mx
  parse_mx-Returns = ground (arith, read_u16-ok buf start, parse_qname-cases buf (start + 2))

  parse_srv-Returns : Returns (parse_srv buf domain ttl start data_len)
  unfolding parse_srv
  parse_srv-Returns = ground (
    arith,
    read_u16-ok buf start,
    read_u16-ok buf (start + 2),
    read_u16-ok buf (start + 4),
    parse_qname-cases buf (start + 6),
  )

  parse_ds-Returns : Returns (parse_ds buf domain ttl start data_len)
  unfolding parse_ds slice
  parse_ds-Returns =
      ground
        (arith, read_u16-ok buf start, byte_at-cases buf (start + 2), byte_at-cases buf (start + 3))

  parse_txt-Returns : Returns (parse_txt buf domain ttl start data_len)
  unfolding parse_txt
  parse_txt-Returns =
      let (bytes, e, l) = slice-ok buf start (start + data_len) (omega arith) fits in
      ground (arith, parse_character_strings-Returns bytes)

  parse_caa-Returns : Returns (parse_caa buf domain ttl start data_len)
  unfolding parse_caa slice
  parse_caa-Returns = ground (arith, byte_at-cases buf start, byte_at-cases buf (start + 1))

  parse_dnskey-Returns : Returns (parse_dnskey buf domain ttl start data_len)
  unfolding parse_dnskey slice
  parse_dnskey-Returns =
      ground
        (arith, read_u16-ok buf start, byte_at-cases buf (start + 2), byte_at-cases buf (start + 3))

  parse_soa-Returns : Returns (parse_soa buf domain ttl start data_len)
  unfolding parse_soa
  parse_soa-Returns = elim (parse_qname-cases buf start) [
    | inl (x, e) ↦ ground arith
    | inr (mname, after, e, bounds) ↦ elim (parse_qname-cases buf after) [
      | inl (x, e') ↦ ground arith
      | inr (rname, next, e', bounds') ↦ ground (
        arith,
        read_u32-ok buf next,
        read_u32-ok buf (next + 4),
        read_u32-ok buf (next + 8),
        read_u32-ok buf (next + 12),
        read_u32-ok buf (next + 16),
      )
    ]
  ]

  -- Every arm but those of RRSIG and NSEC returns, on any record data inside the buffer.
  pub parse_rdata-Returns :
      (record_type class : ℕ)
      → record_type ≢ type_rrsig
      → record_type ≢ type_nsec
      → Returns (parse_rdata buf domain ttl start data_len record_type class)
  unfolding parse_rdata
  parse_rdata-Returns record_type class not_rrsig not_nsec = ground (
    arith, parse_a-Returns, parse_aaaa-Returns, parse_cname-Returns, parse_mx-Returns,
    parse_txt-Returns, parse_ns-Returns, parse_soa-Returns, parse_srv-Returns, parse_ptr-Returns,
    parse_caa-Returns, parse_dnskey-Returns, parse_ds-Returns,
  )
