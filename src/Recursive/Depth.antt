-- ===== src/Recursive/Depth.antt =====
-- How far the walk of src/recursive.rs comes: the zone that `delegation_zone` gives it never has two
-- labels, so the name that it asks for never has three.
use native.Mathlib.Decide.{ℕ_discrete}
use mini_dns.Prelude.{
  ℕ, ◌≤◌, ◌≡◌, ◌≢◌, refl, ap, ◌∙◌, ◌⊎◌, inl, inr, false, List, [], arith, length, bit_and,
  Bool-cases, Option-cases,
}
use mini_dns.Text.{trim_end_dots, Text, is_empty, is_empty_iff, text_eq, text_eq→eq, to_lowercase}
use mini_dns.Text.Pieces.{pieces, pieces-nil}
use mini_dns.Dns.Packet.{DnsPacket}
use mini_dns.Dns.Encoder.{to_bytes}
use mini_dns.DashMap.{DashMap}
use mini_dns.Recursive.Names.{labels, delegation_zone, minimized_qname, parent}
use mini_dns.Recursive.Labels.{length-labels_le, pieces-minimized_qname, pieces-delegation_zone}
use mini_dns.Recursive.Rule.{Branch, walk_rule}
use mini_dns.Recursive.Messages.{Attempt, answered, failed, panicked, relay, synth_servfail}
use mini_dns.Recursive.Servers.{Delegation, is_expired}
use mini_dns.Recursive.{
  Network, Verdict, give, restart, descend, Run, Walk, judge, descend_to, walk, start, resolve,
  extract_delegation, max_delegation_depth,
}

-- From a zone of one label, a name of three is not asked for.
short-ne :
    (name zone : Text)
    → pieces zone ≤ 1
    → 3 ≤ length (labels name)
    → (pieces (minimized_qname name zone) ≤ 2) × (text_eq (minimized_qname name zone) name ≡ false)
short-ne name zone h long =
    let few = length-labels_le zone in
    let n = pieces-minimized_qname name zone (omega arith) in
    let fewer = length-labels_le (minimized_qname name zone) in
    (
      omega arith,
      elim (Bool-cases (text_eq (minimized_qname name zone) name)) [
        | inl e ↦
            let same = ap (λ s. length (labels s)) (text_eq→eq _ name e) in absurd (omega arith)
        | inr e ↦ e
      ],
    )

-- A reply that is passed on although it answers nothing: another rcode than NOERROR and NXDOMAIN.
abbrev pub IsRefusal : DnsPacket → Type 0
IsRefusal p =
    (p.answers ≡ []) × (bit_and p.header.flags 0x000F ≢ 0) × (bit_and p.header.flags 0x000F ≢ 3)

abbrev pub NoAnswer : Text → ℕ → ℕ → Attempt (List ℕ) → Type 0
NoAnswer name qtype id (answered bytes) =
    (bytes ≡ synth_servfail name qtype id)
    ⊎ ((p : DnsPacket) × IsRefusal p × (bytes ≡ to_bytes (relay id p)))
NoAnswer name qtype id failed = ⊥
NoAnswer name qtype id panicked = Unit

-- What the verdict may be on a name that is not the whole.
abbrev Partial : Text → DnsPacket → Verdict → Type 0
Partial query_name p give = IsRefusal p
Partial query_name p restart = Unit
Partial query_name p (descend zone d) = zone ≡ delegation_zone query_name

module _ (M : DashMap Text Delegation) (N : Network M.Map) where
  judge-Partial :
      (name query_name : Text) (p : DnsPacket) (r : Run M N)
      → text_eq query_name name ≡ false
      → Partial query_name p (judge M N name query_name p r)
  unfolding judge
  judge-Partial name query_name p r e = elim (Bool-cases (is_empty p.answers)) [
    | inr some_answer ↦ rw (some_answer, e) tt
    | inl empty ↦ elim (ℕ_discrete (bit_and p.header.flags 0x000F) 3) [
      | yes nx ↦ rw (empty, nx, e) tt
      | no other ↦ elim (ℕ_discrete (bit_and p.header.flags 0x000F) 0) [
        | yes fine ↦
            let found =
              Option-cases (extract_delegation M N p r.shared.delegations (N.now r.world)) in
            elim found [
              | inl missing ↦
                  let v : judge M N name query_name p r ≡ restart = ground arith in rw v tt
              | inr (d, follow) ↦
                  let v : judge M N name query_name p r ≡ descend (delegation_zone query_name) d =
                    ground arith in
                  rw v refl
            ]
        | no bad ↦
            let v : judge M N name query_name p r ≡ give = ground arith in
            rw v ((is_empty_iff p.answers).0 empty, bad, other)
      ]
    ]
  ]

  -- The walk stays where it asks for two labels at most.
  abbrev IsShort : Walk M N → Type 0
  IsShort w = pieces w.current_zone ≤ 1

  verdict-IsShort :
      (name : Text) (qtype id : ℕ) (query_name : Text) (p : DnsPacket) (r : Run M N) (v : Verdict)
      → pieces query_name ≤ 2
      → Partial query_name p v
      → Branch M N name qtype id IsShort (NoAnswer name qtype id) p r v
  unfolding descend_to
  verdict-IsShort name qtype id q p r give h part = inr (p, part, refl)
  verdict-IsShort name qtype id q p r restart h part = omega (arith, pieces-nil)
  verdict-IsShort name qtype id q p r (descend zone d) h part =
      let e = ap pieces part ∙ pieces-delegation_zone q in omega arith

  walk-NoAnswer :
      (name : Text) (qtype id : ℕ)
      → 3 ≤ length (labels name)
      → (turns : ℕ) (w : Walk M N) → IsShort w
      → NoAnswer name qtype id (walk M N turns name qtype id w).0
  walk-NoAnswer name qtype id long =
      walk_rule M N name qtype id IsShort (NoAnswer name qtype id) (inl refl) tt λ w p r h.
        let short = short-ne name w.current_zone h long in
        verdict-IsShort name qtype id (minimized_qname name w.current_zone) p r _ short.0
          (judge-Partial name _ p r short.1)

  start-IsShort : (name : Text) (r : Run M N) → IsShort (start M N name r)
  unfolding start
  start-IsShort name r = elim (Option-cases (M.get r.shared.delegations (parent name))) [
    | inl missing ↦ rw (missing, start) (omega (arith, pieces-nil))
    | inr (d, hit) ↦ elim (Bool-cases (is_expired (N.now r.world) d)) [
      | inl late ↦ rw (hit, start, late) (omega (arith, pieces-nil))
      | inr early ↦ rw (hit, start, early) (omega (arith, pieces-nil))
    ]
  ]

  -- A name of three labels or more is never answered, whatever the servers reply: the client gets
  -- SERVFAIL, or a reply without answers whose rcode is neither NOERROR nor NXDOMAIN, or the parser
  -- panics.
  pub resolve-NoAnswer :
      (query : Text) (qtype id : ℕ) (r : Run M N)
      → 3 ≤ length (labels (trim_end_dots (to_lowercase query)))
      → NoAnswer (trim_end_dots (to_lowercase query)) qtype id (resolve M N query qtype id r).0
  unfolding resolve
  resolve-NoAnswer query qtype id r long =
      let name = trim_end_dots (to_lowercase query) in
      walk-NoAnswer name qtype id long max_delegation_depth (start M N name r)
        (start-IsShort name r)
