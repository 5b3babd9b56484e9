-- ===== src/Dns/Parse/Rdata/Overrun.antt =====
-- The two slices of `parse_record` in src/dns/packet.rs whose start is where a name ended: a name
-- may run on past the record's data, and then the slice starts behind its end.
use mini_dns.Prelude.{
  ℕ, ◌+◌, ◌≤◌, ◌<◌, ◌≡◌, ◌≢◌, ◌↔◌, ◌⊎◌, inl, inr, false, some, List, arith, ltb, length,
}
use mini_dns.Text.{Text}
use mini_dns.Dns.Error.{ok, panic, stuck, ◌>>=◌}
use native.Mathlib.Decide.{dec_lt, ℕ_discrete}
use mini_dns.Dns.Record.{DnsRecord, type_rrsig, type_nsec}
use mini_dns.Dns.Buffer.{
  slice, byte_at-ok, slice-panic, lt_of_slice-panic, read_u16-ok, read_u32-ok,
}
use mini_dns.Dns.Parse.Name.{parse_qname}
use mini_dns.Dns.Parse.Rdata.{parse_rrsig, parse_nsec, parse_rdata}
use mini_dns.Dns.Parse.Rdata.Total.{parse_qname-cases, parse_rdata-Returns}

-- The name at `at` parses, and ends behind `limit`.
abbrev pub NameOverruns : List ℕ → ℕ → ℕ → Type 0
NameOverruns buf at limit =
    (n : Text) × (after : ℕ) × (parse_qname buf at ≡ ok (n, after)) × (limit < after)

module _ (buf : List ℕ) (domain : Text) (ttl start data_len : ℕ)
    (fits : start + data_len ≤ length buf) where
  nsec_down :
      parse_nsec buf domain ttl start data_len ≡ panic → NameOverruns buf start (start + data_len)
  unfolding parse_nsec
  nsec_down e = elim (parse_qname-cases buf start) [
    | inl (x, e') ↦ absurd (ground arith)
    | inr (n, after, e', bounds) ↦
        (n, after, e', ground (arith, lt_of_slice-panic buf after (start + data_len)))
  ]

  nsec_up :
      NameOverruns buf start (start + data_len) → parse_nsec buf domain ttl start data_len ≡ panic
  unfolding parse_nsec
  nsec_up (n, after, e, h) = ground (arith, slice-panic buf after (start + data_len) h)

  -- An NSEC record panics exactly when its next name runs past the record data.
  pub parse_nsec-panic_iff :
      (parse_nsec buf domain ttl start data_len ≡ panic) ↔ NameOverruns buf start (start + data_len)
  parse_nsec-panic_iff = (nsec_down, nsec_up)

  module _ (long : 18 ≤ data_len) where
    -- With the fixed fields read, only the name and the signature are left.
    parse_rrsig-tail :
        (make : Text → List ℕ → DnsRecord) × (parse_rrsig buf domain ttl start data_len ≡ (do
          (signer_name, after_signer) ← parse_qname buf (start + 18)
          signature ← slice buf after_signer (start + data_len)
          ok (some (make signer_name signature))))
    unfolding parse_rrsig
    parse_rrsig-tail =
        let (covered, e0) = read_u16-ok buf start (omega arith) in
        let (algorithm, e1) = byte_at-ok buf (start + 2) (omega arith) in
        let (labels, e2) = byte_at-ok buf (start + 3) (omega arith) in
        let (original, e3) = read_u32-ok buf (start + 4) (omega arith) in
        let (expiration, e4) = read_u32-ok buf (start + 8) (omega arith) in
        let (inception, e5) = read_u32-ok buf (start + 12) (omega arith) in
        let (key_tag, e6) = read_u16-ok buf (start + 16) (omega arith) in
        let g : ltb data_len 18 ≡ false = ground arith in
        (
          λ n s.
              DnsRecord.rrsig domain covered algorithm labels original expiration inception key_tag
                n s ttl,
          rw (g, e0, e1, e2, e3, e4, e5, e6),
        )

    rrsig_down :
        parse_rrsig buf domain ttl start data_len ≡ panic
        → NameOverruns buf (start + 18) (start + data_len)
    rrsig_down e =
        let (make, tail) = parse_rrsig-tail in
        elim (parse_qname-cases buf (start + 18)) [
          | inl (x, e') ↦ absurd (ground arith)
          | inr (n, after, e', bounds) ↦
              (n, after, e', ground (arith, lt_of_slice-panic buf after (start + data_len)))
        ]

    rrsig_up :
        NameOverruns buf (start + 18) (start + data_len)
        → parse_rrsig buf domain ttl start data_len ≡ panic
    rrsig_up (n, after, e, h) =
        let (make, tail) = parse_rrsig-tail in
        ground (arith, slice-panic buf after (start + data_len) h)

    -- An RRSIG record with its 18 fixed bytes panics exactly when the signer's name runs past the
    -- record data.
    pub parse_rrsig-panic_iff :
        (parse_rrsig buf domain ttl start data_len ≡ panic)
        ↔ NameOverruns buf (start + 18) (start + data_len)
    parse_rrsig-panic_iff = (rrsig_down, rrsig_up)

  nsec-ne-stuck : parse_nsec buf domain ttl start data_len ≢ stuck
  unfolding parse_nsec slice
  nsec-ne-stuck = ground (arith, parse_qname-cases buf start)

  rrsig-ne-stuck : parse_rrsig buf domain ttl start data_len ≢ stuck
  rrsig-ne-stuck = elim (dec_lt data_len 18) [
    | yes short ↦ unfold parse_rrsig in ground arith
    | no long ↦
        let (make, tail) = parse_rrsig-tail (omega arith) in
        unfold slice in ground (arith, parse_qname-cases buf (start + 18))
  ]

  -- Only an RRSIG or NSEC record whose name runs past its data makes the parser panic.
  pub parse_rdata-panic :
      (record_type class : ℕ)
      → parse_rdata buf domain ttl start data_len record_type class ≡ panic
      → ((record_type ≡ type_rrsig) × NameOverruns buf (start + 18) (start + data_len))
        ⊎ ((record_type ≡ type_nsec) × NameOverruns buf start (start + data_len))
  parse_rdata-panic record_type class e = elim (ℕ_discrete record_type type_rrsig) [
    | yes p ↦ elim (dec_lt data_len 18) [
      | yes short ↦ absurd (unfold parse_rdata parse_rrsig in ground arith)
      | no long ↦ inl (p, rrsig_down (omega arith) (unfold parse_rdata in ground arith))
    ]
    | no p ↦ elim (ℕ_discrete record_type type_nsec) [
      | yes q ↦ inr (q, nsec_down (unfold parse_rdata in ground arith))
      | no q ↦ absurd (
          ground
            (arith, parse_rdata-Returns buf domain ttl start data_len fits record_type class p q))
    ]
  ]

  -- No record data lets the parser run on for ever.
  pub parse_rdata-ne-stuck :
      (record_type class : ℕ) → parse_rdata buf domain ttl start data_len record_type class ≢ stuck
  parse_rdata-ne-stuck record_type class e = elim (ℕ_discrete record_type type_rrsig) [
    | yes p ↦ rrsig-ne-stuck (unfold parse_rdata in ground arith)
    | no p ↦ elim (ℕ_discrete record_type type_nsec) [
      | yes q ↦ nsec-ne-stuck (unfold parse_rdata in ground arith)
      | no q ↦
          ground
            (arith, parse_rdata-Returns buf domain ttl start data_len fits record_type class p q)
    ]
  ]
