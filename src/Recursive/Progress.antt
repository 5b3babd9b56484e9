-- ===== src/Recursive/Progress.antt =====
-- A resolution of src/recursive.rs that ends with an answer: a name of two labels, by way of the
-- servers of its last label.
use mini_dns.Prelude.{
  ℕ, suc, ◌≡◌, refl, sym, ap, ◌∙◌, true, false, none, some, List, [], ◌∷◌, arith, length, bit_and,
}
use mathlib.Core.Path.{subst}
use mini_dns.Text.{trim_end_dots, Text, is_empty, text_eq_refl, to_lowercase}
use mini_dns.Net.{SocketAddr}
use mini_dns.DashMap.{DashMap}
use mini_dns.Dns.Packet.{DnsPacket}
use mini_dns.Dns.Encoder.{to_bytes}
use mini_dns.Recursive.Names.{labels, parent, delegation_zone, minimized_qname}
use mini_dns.Text.Pieces.{pieces}
use mini_dns.Recursive.Names.{nonempty}
use mini_dns.Text.{split_dot}
use mini_dns.Prelude.{length-drop}
use mini_dns.Recursive.Labels.{
  labels-minimized_qname, pieces-minimized_qname, delegation_zone_free, minimized_qname_whole,
}
use mini_dns.Recursive.Messages.{answered, relay}
use mini_dns.Recursive.Servers.{Delegation, root_servers}
use mini_dns.Recursive.{
  max_delegation_depth, Network, give, descend, Run, Walk, at_root, judge, descend_to, walk, start,
  resolve, extract_delegation, query_servers, query_one,
}

labels_nil : length (labels []) ≡ 0
unfolding labels nonempty split_dot is_empty
labels_nil = refl

one_label :
    (name : Text)
    → length (labels name) ≡ 2
    → (pieces (minimized_qname name []) ≡ 1) × (length (labels (minimized_qname name [])) ≡ 1)
one_label name two =
    let n = ap length (labels-minimized_qname name []) ∙ length-drop _ (labels name) in
    (
      pieces-minimized_qname name [] (omega (arith, labels_nil)) ∙ omega (arith, labels_nil),
      omega (arith, labels_nil),
    )

module _ (M : DashMap Text Delegation) (N : Network M.Map) where
  -- The reply of the first server is the reply.
  pub query_servers_first :
      (name : Text) (qtype : ℕ) (server : SocketAddr) (servers : List SocketAddr) (r r' : Run M N)
      (p : DnsPacket)
      → query_one M N name qtype server r ≡ (answered p, r')
      → query_servers M N name qtype (server ∷ servers) r ≡ (answered p, r')
  unfolding query_servers
  query_servers_first name qtype server servers r r' p e = ground arith

  -- The reply is a referral to `d`.
  abbrev pub Refers : DnsPacket → Run M N → Delegation → Type 0
  Refers p r d =
      (is_empty p.answers ≡ true)
      × (bit_and p.header.flags 0x000F ≡ 0)
      × (extract_delegation M N p r.shared.delegations (N.now r.world) ≡ some d)

  judge-descend :
      (name query_name : Text) (p : DnsPacket) (r : Run M N) (d : Delegation)
      → Refers p r d
      → judge M N name query_name p r ≡ descend (delegation_zone query_name) d
  unfolding judge
  judge-descend name query_name p r d h = rw (h.0, h.1, h.2) refl

  judge-give :
      (name query_name : Text) (p : DnsPacket) (r : Run M N)
      → query_name ≡ name
      → is_empty p.answers ≡ false
      → judge M N name query_name p r ≡ give
  unfolding judge
  judge-give name query_name p r e h = rw (e, h, text_eq_refl name) refl

  turn-descend :
      (turns : ℕ) (name : Text) (qtype id : ℕ) (w : Walk M N) (p : DnsPacket) (r : Run M N)
      (d : Delegation)
      → query_servers M N (minimized_qname name w.current_zone) qtype w.servers w.run
        ≡ (answered p, r)
      → Refers p r d
      → walk M N (suc turns) name qtype id w
        ≡ walk M N turns name qtype id
            (descend_to M N (delegation_zone (minimized_qname name w.current_zone)) d r)
  unfolding walk
  turn-descend turns name qtype id w p r d e h =
      ground (arith, judge-descend name (minimized_qname name w.current_zone) p r d h)

  turn-give :
      (turns : ℕ) (name : Text) (qtype id : ℕ) (w : Walk M N) (p : DnsPacket) (r : Run M N)
      → query_servers M N (minimized_qname name w.current_zone) qtype w.servers w.run
        ≡ (answered p, r)
      → minimized_qname name w.current_zone ≡ name
      → is_empty p.answers ≡ false
      → walk M N (suc turns) name qtype id w ≡ (answered (to_bytes (relay id p)), r)
  unfolding walk
  turn-give turns name qtype id w p r e whole h =
      ground (arith, judge-give name (minimized_qname name w.current_zone) p r whole h)

  start_fresh :
      (name : Text) (r : Run M N)
      → M.get r.shared.delegations (parent name) ≡ none
      → start M N name r ≡ at_root M N r
  unfolding start
  start_fresh name r e = rw (e, start) refl

  -- From the root, two turns.
  two_turns :
      (turns : ℕ) (name : Text) (qtype id : ℕ) (r r1 r2 : Run M N) (p1 p2 : DnsPacket)
      (d : Delegation)
      → let tld = minimized_qname name [] in
        length (labels name) ≡ 2
        → query_servers M N tld qtype root_servers r ≡ (answered p1, r1)
        → Refers p1 r1 d
        → query_servers M N name qtype d.ns_addrs (descend_to M N tld d r1).run ≡ (answered p2, r2)
        → is_empty p2.answers ≡ false
        → walk M N (suc (suc turns)) name qtype id (at_root M N r)
          ≡ (answered (to_bytes (relay id p2)), r2)
  unfolding descend_to
  two_turns turns name qtype id r r1 r2 p1 p2 d two asked refers told full =
      let tld = minimized_qname name [] in
      let one = one_label name two in
      let zone = delegation_zone_free tld one.0 in
      let whole = minimized_qname_whole name tld (omega arith) (omega arith) in
      turn-descend (suc turns) name qtype id (at_root M N r) p1 r1 d asked refers
      ∙ ap (λ z. walk M N (suc turns) name qtype id (descend_to M N z d r1)) zone
      ∙ last_turn tld whole told
    where
      last_turn :
          (tld : Text)
          → minimized_qname name tld ≡ name
          → query_servers M N name qtype d.ns_addrs (descend_to M N tld d r1).run
            ≡ (answered p2, r2)
          → walk M N (suc turns) name qtype id (descend_to M N tld d r1)
            ≡ (answered (to_bytes (relay id p2)), r2)
      last_turn tld whole told =
          let w = descend_to M N tld d r1 in
          turn-give turns name qtype id w p2 r2
            (subst (λ q. query_servers M N q qtype w.servers w.run ≡ (answered p2, r2)) (sym whole)
              told)
            whole full

  -- For a name of two labels: where its parent domain has no cached delegation, the root refers to the
  -- servers of its last label, and these answer the question for the name itself with at least one
  -- answer record, the client gets that answer, relayed under its own id. The servers that do not reply
  -- before those are passed over.
  pub resolve-two_labels :
      (query : Text) (qtype id : ℕ) (r r1 r2 : Run M N) (p1 p2 : DnsPacket) (d : Delegation)
      → let name = trim_end_dots (to_lowercase query) in
        let tld = minimized_qname name [] in
        length (labels name) ≡ 2
        → M.get r.shared.delegations (parent name) ≡ none
        → query_servers M N tld qtype root_servers r ≡ (answered p1, r1)
        → Refers p1 r1 d
        → query_servers M N name qtype d.ns_addrs (descend_to M N tld d r1).run ≡ (answered p2, r2)
        → is_empty p2.answers ≡ false
        → resolve M N query qtype id r ≡ (answered (to_bytes (relay id p2)), r2)
  unfolding resolve
  resolve-two_labels query qtype id r r1 r2 p1 p2 d two fresh asked refers told full =
      let name = trim_end_dots (to_lowercase query) in
      ap (walk M N max_delegation_depth name qtype id) (start_fresh name r fresh)
      ∙ two_turns 18 name qtype id r r1 r2 p1 p2 d two asked refers told full
