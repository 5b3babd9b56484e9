-- ===== src/Recursive/Rule.antt =====
-- The rule by which the theorems on the loop of src/recursive.rs are proved: an invariant of the walk
-- that every followed verdict keeps, and a condition that every result meets.
use mini_dns.Prelude.{ℕ, zero, suc, List}
use mini_dns.Text.{Text}
use mini_dns.Dns.Packet.{DnsPacket}
use mini_dns.Dns.Encoder.{to_bytes}
use mini_dns.DashMap.{DashMap}
use mini_dns.Recursive.Names.{minimized_qname}
use mini_dns.Recursive.Messages.{Attempt, answered, failed, panicked, relay, synth_servfail}
use mini_dns.Recursive.Servers.{Delegation}
use mini_dns.Recursive.{
  Network, Verdict, give, restart, descend, Run, Walk, at_root, judge, descend_to, walk,
  query_servers,
}

module _ (M : DashMap Text Delegation) (N : Network M.Map) (name : Text) (qtype id : ℕ)
    (Keeps : Walk M N → Type 0) (Post : Attempt (List ℕ) → Type 0) where
  -- What a verdict on a reply has to give.
  abbrev pub Branch : DnsPacket → Run M N → Verdict → Type 0
  Branch p r give = Post (answered (to_bytes (relay id p)))
  Branch p r restart = Keeps (at_root M N r)
  Branch p r (descend zone d) = Keeps (descend_to M N zone d r)

  -- The results from the turns that are left.
  abbrev Rest : ℕ → Type 0
  Rest turns = (w : Walk M N) → Keeps w → Post (walk M N turns name qtype id w).0

  verdict-Post :
      (turns : ℕ) (p : DnsPacket) (r : Run M N) (v : Verdict)
      → Rest turns
      → Branch p r v
      → Post
          (elim v as (λ _. Attempt (List ℕ) × Run M N) [
            | give ↦ (answered (to_bytes (relay id p)), r)
            | restart ↦ walk M N turns name qtype id (at_root M N r)
            | descend zone d ↦ walk M N turns name qtype id (descend_to M N zone d r)
          ]).0
  verdict-Post turns p r give rest b = b
  verdict-Post turns p r restart rest b = rest (at_root M N r) b
  verdict-Post turns p r (descend zone d) rest b = rest (descend_to M N zone d r) b

  turn-Post :
      (turns : ℕ) (query_name : Text) (a : Attempt DnsPacket) (r : Run M N)
      → Post (answered (synth_servfail name qtype id))
      → Post panicked
      → Rest turns
      → ((p : DnsPacket) → Branch p r (judge M N name query_name p r))
      → Post
          (elim a as (λ _. Attempt (List ℕ) × Run M N) [
            | failed ↦ (answered (synth_servfail name qtype id), r)
            | panicked ↦ (panicked, r)
            | answered p ↦ elim (judge M N name query_name p r) [
              | give ↦ (answered (to_bytes (relay id p)), r)
              | restart ↦ walk M N turns name qtype id (at_root M N r)
              | descend zone d ↦ walk M N turns name qtype id (descend_to M N zone d r)
            ]
          ]).0
  turn-Post turns q failed r fails crash rest b = fails
  turn-Post turns q panicked r fails crash rest b = crash
  turn-Post turns q (answered p) r fails crash rest b = verdict-Post turns p r _ rest (b p)

  pub walk_rule :
      Post (answered (synth_servfail name qtype id))
      → Post panicked
      → ((w : Walk M N) (p : DnsPacket) (r : Run M N)
          → Keeps w
          → Branch p r (judge M N name (minimized_qname name w.current_zone) p r))
      → (turns : ℕ) (w : Walk M N) → Keeps w
      → Post (walk M N turns name qtype id w).0
  unfolding walk
  walk_rule fails crash keep zero w h = fails
  walk_rule fails crash keep (suc turns) w h =
      let query_name = minimized_qname name w.current_zone in
      let q = query_servers M N query_name qtype w.servers w.run in
      turn-Post turns query_name q.0 q.1 fails crash (walk_rule fails crash keep turns)
        (λ p. keep w p q.1 h)
