-- ===== src/State/Replay.antt =====
-- What `replay` of src/state.rs sends: the reply, under the client's own id and size limit.
use mini_dns.Prelude.{
  ℕ, ◌≤◌, ◌≡◌, ◌≢◌, refl, ap, ◌∙◌, Option, none, some, List, [], ◌∷◌, ◌++◌, arith, length, leb,
  Bool-cases, Option-cases, inl, inr,
}
use mini_dns.Dns.Error.{Result, ok, err, panic, stuck}
use mini_dns.Dns.Record.{DnsRecord}
use mini_dns.Dns.Packet.{DnsPacket, first_opt, edns_udp_size, clamp_udp}
use mini_dns.Dns.Parse.Packet.{from_bytes}
use mini_dns.Dns.Encoder.{u16_bytes, udp_limit, to_udp_bytes, to_bytes, truncate, header_bytes}
use mini_dns.Dns.Encoder.Header.{to_bytes-header_bytes}
use mini_dns.Dns.Parse.Packet.Total.{Outcome, from_bytes-Outcome}
use mini_dns.State.{
  Transport, udp, tcp, align_edns, put_opt, replace_opt, without_opt, with_id, replay,
  patch_transaction_id,
}

-- After a replacement, or without an OPT record to replace and with one appended.
Replaced : ℕ → List DnsRecord → Option (List DnsRecord) → Type 0
Replaced n rs none = first_opt (rs ++ (DnsRecord.opt n ∷ [])) ≡ some n
Replaced n rs (some rs') = first_opt rs' ≡ some n

step :
    (n : ℕ) (r : DnsRecord) (rs : List DnsRecord) (o : Option (List DnsRecord))
    → ((xs : List DnsRecord) → first_opt (r ∷ xs) ≡ first_opt xs)
    → Replaced n rs o
    → Replaced n (r ∷ rs) (elim o [ none ↦ none | some rs' ↦ some (r ∷ rs') ])
unfolding Replaced
step n r rs none same h = same (rs ++ (DnsRecord.opt n ∷ [])) ∙ h
step n r rs (some rs') same h = same rs' ∙ h

replace_opt-Replaced : (n : ℕ) (rs : List DnsRecord) → Replaced n rs (replace_opt n rs)
unfolding replace_opt Replaced first_opt
replace_opt-Replaced n [] = refl
replace_opt-Replaced n (DnsRecord.opt old ∷ rs) = refl
replace_opt-Replaced n (r ∷ rs) =
    step n r rs (replace_opt n rs) (λ xs. refl) (replace_opt-Replaced n rs)

without_opt-first_opt : (rs : List DnsRecord) → first_opt (without_opt rs) ≡ none
unfolding first_opt without_opt
without_opt-first_opt [] = refl
without_opt-first_opt (DnsRecord.opt n ∷ rs) = without_opt-first_opt rs
without_opt-first_opt (r ∷ rs) = without_opt-first_opt rs

clamp_udp_idem : (n : ℕ) → clamp_udp (clamp_udp n) ≡ clamp_udp n
unfolding clamp_udp
clamp_udp_idem n = omega arith

put_opt-first_opt : (n : ℕ) (rs : List DnsRecord) → first_opt (put_opt n rs) ≡ some n
unfolding put_opt
put_opt-first_opt n rs = put (replace_opt n rs) (replace_opt-Replaced n rs)
  where
    put :
        (o : Option (List DnsRecord))
        → Replaced n rs o
        → first_opt (elim o [ none ↦ rs ++ (DnsRecord.opt n ∷ []) | some rs' ↦ rs' ]) ≡ some n
    put none h = unfold Replaced in h
    put (some rs') h = unfold Replaced in h

-- However the stored reply negotiated its size, the aligned one is cut at the limit of the client
-- at hand, and it has an OPT record exactly where the client sent one.
pub align_edns-udp_limit :
    (packet request : DnsPacket)
    → (udp_limit (align_edns packet request) ≡ udp_limit request)
      × ((edns_udp_size (align_edns packet request) ≡ none → edns_udp_size request ≡ none)
          × (edns_udp_size request ≡ none → edns_udp_size (align_edns packet request) ≡ none))
unfolding align_edns udp_limit edns_udp_size
align_edns-udp_limit packet request = elim (Option-cases (first_opt request.additionals)) [
  | inl plain ↦
      rw (plain, align_edns, udp_limit, without_opt-first_opt packet.additionals)
        (refl, ((λ e. refl), (λ e. refl)))
  | inr (n, sent) ↦
      rw (sent, align_edns, udp_limit, put_opt-first_opt (clamp_udp n) packet.additionals)
        (clamp_udp_idem n, ((λ e. absurd (ground arith)), (λ e. absurd (ground arith))))
]

-- The message starts with the id.
StartsWith : ℕ → List ℕ → Type 0
StartsWith id bytes = (rest : List ℕ) × (bytes ≡ u16_bytes id ++ rest)

to_bytes-StartsWith : (packet : DnsPacket) → StartsWith packet.header.id (to_bytes packet)
unfolding StartsWith header_bytes
to_bytes-StartsWith packet = let (rest, e) = to_bytes-header_bytes packet in (_, e)

to_udp_bytes-StartsWith : (packet : DnsPacket) → StartsWith packet.header.id (to_udp_bytes packet)
unfolding to_udp_bytes truncate
to_udp_bytes-StartsWith packet =
    elim (Bool-cases (leb (length (to_bytes packet)) (udp_limit packet))) [
      | inl fits ↦ rw (fits, to_udp_bytes) (to_bytes-StartsWith packet)
      | inr over ↦ rw (over, to_udp_bytes) (to_bytes-StartsWith (truncate packet))
    ]

patch-StartsWith :
    (raw : List ℕ) (id : ℕ) → 2 ≤ length raw → StartsWith id (patch_transaction_id raw id)
unfolding patch_transaction_id StartsWith
patch-StartsWith [] id h = absurd (omega arith)
patch-StartsWith (b ∷ []) id h = absurd (omega arith)
patch-StartsWith (b ∷ c ∷ rest) id h = (rest, refl)

align_edns-id :
    (packet request : DnsPacket) → (align_edns packet request).header.id ≡ packet.header.id
unfolding align_edns
align_edns-id packet request = elim (Option-cases (edns_udp_size request)) [
  | inl e ↦ rw (e, align_edns) refl
  | inr (n, e) ↦ rw (e, align_edns) refl
]

-- On either transport a reply that the parser does not panic on is sent on, under the id of the
-- request at hand, whatever id it was stored under.
pub replay-id :
    (raw : List ℕ) (request : DnsPacket) (transport : Transport)
    → 2 ≤ length raw
    → from_bytes raw ≢ panic
    → (rest : List ℕ) × (replay raw request transport ≡ ok (u16_bytes request.header.id ++ rest))
unfolding replay StartsWith
replay-id raw request tcp h calm =
    let (rest, e) = patch-StartsWith raw request.header.id h in (rest, ap ok e)
replay-id raw request udp h calm = sent (from_bytes raw) (from_bytes-Outcome raw) calm
  where
    id : ℕ
    id = request.header.id

    sent :
        (m : Result DnsPacket)
        → Outcome raw (λ p. 12 ≤ length raw) m
        → m ≢ panic
        → (rest : List ℕ) × ((elim m [
          | ok packet ↦ ok (to_udp_bytes (align_edns (with_id packet id) request))
          | err e ↦ ok (patch_transaction_id raw id)
          | panic ↦ panic
          | stuck ↦ stuck
        ])
            ≡ ok (u16_bytes id ++ rest))
    sent (ok packet) o calm =
        let aligned = align_edns (with_id packet id) request in
        let (rest, e) = to_udp_bytes-StartsWith aligned in
        (
          rest,
          ap ok (e ∙ ap (λ n. u16_bytes n ++ rest) (align_edns-id (with_id packet id) request)),
        )
    sent (err e) o calm = let (rest, e') = patch-StartsWith raw id h in (rest, ap ok e')
    sent panic o calm = absurd (calm refl)
    sent stuck o calm = absurd o
