-- ===== src/State/Flight/Steps.antt =====
-- Every step of the single flight of src/state.rs keeps the invariant.
use mathlib.Core.Path.{subst}
use mini_dns.Prelude.{
  ℕ, ◌≡◌, ◌<◌, refl, sym, ap, ◌∙◌, inl, inr, true, false, Option, none, some, List, arith,
}
use mini_dns.Cache.{Key}
use mini_dns.Dns.Error.{Result}
use mini_dns.State.Local.{ForwardCtx}
use mini_dns.State.Flight.{
  leading, leaving, closing, Channel, Flights, update, finish, replay_for, Step, lead, follow,
  publish, cancel, remove, close, receive, fail, abandon, Reach, here, later,
}
use mini_dns.State.Flight.Entries.{Holds-Sends, remove-Inv, lead-Inv}
use mini_dns.State.Flight.Invariant.{
  Holds, Sends, Follows, result, task_key, Inv, no_flights-Inv, update_intro, update_elim, Inv-at,
  follow-Inv, cancel-Inv, receive-Inv, fail-Inv, abandon-Inv,
}

finish-Sends : (out : Option (Result (List ℕ))) (ch : ℕ) → Sends (finish out) ch → ⊥
finish-Sends none ch h = h
finish-Sends (some r) ch h = h

finish-Follows : (out : Option (Result (List ℕ))) (ch : ℕ) → Follows (finish out) ch → ⊥
finish-Follows none ch h = h
finish-Follows (some r) ch h = h

result-finish : (out : Option (Result (List ℕ))) → result (finish out) ≡ out
result-finish none = refl
result-finish (some r) = refl

module _ (ctx : ℕ → ForwardCtx) (Upstream : Key → List ℕ → Type 0) where
  -- A step that changes the channels and nothing else.
  Inv-channel :
      (s : Flights) (f : ℕ → Channel)
      → Inv ctx Upstream s
      → ((ch : ℕ) → (f ch).owner ≡ (s.channel ch).owner)
      → ((ch : ℕ)
          → (f ch).is_open ≡ true
          → (f ch).value ≡ none
          → ((s.channel ch).is_open ≡ true) × ((s.channel ch).value ≡ none))
      → ((ch : ℕ) (raw : List ℕ)
          → ch < s.next
          → (f ch).value ≡ some raw
          → Upstream (task_key ctx Upstream (s.channel ch).owner) raw)
      → Inv ctx Upstream (record s { channel = f })
  Inv-channel s f v owner open' source = record {
    held = v.held;
    entered = λ k ch e.
        let old = v.entered k ch e in
        (
          old.0,
          subst (λ o. Holds (s.pc o) ch) (sym (owner ch)) old.1,
          subst (λ o. task_key ctx Upstream o ≡ k) (sym (owner ch)) old.2,
        );
    owned = λ i ch h. let old = v.owned i ch h in (old.0, owner ch ∙ old.1);
    alive = λ ch lt o n.
        let old = open' ch o n in
        subst (λ w. Sends (s.pc w) ch) (sym (owner ch)) (v.alive ch lt old.0 old.1);
    follows = λ i ch h.
        let old = v.follows i ch h in (old.0, ap (task_key ctx Upstream) (owner ch) ∙ old.1);
    sourced = λ ch raw lt e.
        subst (λ o. Upstream (task_key ctx Upstream o) raw) (sym (owner ch)) (source ch raw lt e);
    replied = v.replied;
  }

  -- A change of one channel that keeps its owner.
  same-owner :
      (f : ℕ → Channel) (ch : ℕ) (c : Channel)
      → c.owner ≡ (f ch).owner
      → (d : ℕ) → (update f ch c d).owner ≡ (f d).owner
  same-owner f ch c e d =
      update_intro (λ x. x.owner ≡ (f d).owner) f ch c d (λ same. e ∙ ap (λ k. (f k).owner) same)
        (λ n. refl)

  publish-Inv :
      (s : Flights) (i ch : ℕ) (raw : List ℕ)
      → Inv ctx Upstream s
      → s.pc i ≡ leading ch
      → Upstream (task_key ctx Upstream i) raw
      → Inv ctx Upstream (record s {
        channel = update s.channel ch (record (s.channel ch) { value = some raw });
        pc = update s.pc i (leaving ch (some (replay_for (ctx i) raw)));
      })
  publish-Inv s i ch raw v from asked =
      let sent : Channel = record (s.channel ch) { value = some raw } in
      let f = update s.channel ch sent in
      let own = v.owned i ch (subst (λ x. Sends x ch) (sym from) refl) in
      let published =
        Inv-channel s f v (same-owner s.channel ch sent refl)
          (λ d o n.
            elim (update_elim (λ x. (x.is_open ≡ true) × (x.value ≡ none)) s.channel ch sent d
              (o, n)) [ inl (e, h) ↦ absurd (ground arith) | inr (e, h) ↦ h ])
          (λ d r lt e. elim (update_elim (λ x. x.value ≡ some r) s.channel ch sent d e) [
            | inl (same, h) ↦
                let mine : Upstream (task_key ctx Upstream (s.channel d).owner) raw =
                  subst (λ k. Upstream (task_key ctx Upstream k) raw)
                    (sym own.1 ∙ ap (λ k. (s.channel k).owner) same) asked in
                let value : raw ≡ r = ground arith in
                subst (Upstream (task_key ctx Upstream (s.channel d).owner)) value mine
            | inr (n, h) ↦ v.sourced d r lt h
          ]) in
      Inv-at ctx Upstream (record s { channel = f }) i (leading ch) _ published from (λ c h. h)
        (λ c h. h) (λ c h. h) (λ c o h. h) (λ c h. absurd h) (λ r e. inl (raw, asked, ground arith))

  close-Inv :
      (s : Flights) (i ch : ℕ) (out : Option (Result (List ℕ)))
      → Inv ctx Upstream s
      → s.pc i ≡ closing ch out
      → Inv ctx Upstream (record s {
        channel = update s.channel ch (record (s.channel ch) { is_open = false });
        pc = update s.pc i (finish out);
      })
  close-Inv s i ch out v from =
      let shut : Channel = record (s.channel ch) { is_open = false } in
      let f = update s.channel ch shut in
      let closed =
        Inv-channel s f v (same-owner s.channel ch shut refl)
          (λ d o n.
            elim (update_elim (λ x. (x.is_open ≡ true) × (x.value ≡ none)) s.channel ch shut d
              (o, n)) [ inl (e, h) ↦ absurd (ground arith) | inr (e, h) ↦ h ])
          (λ d r lt e. elim (update_elim (λ x. x.value ≡ some r) s.channel ch shut d e) [
            | inl (same, h) ↦ v.sourced d r lt (subst (λ k. (s.channel k).value ≡ some r) same h)
            | inr (n, h) ↦ v.sourced d r lt h
          ]) in
      Inv-at ctx Upstream (record s { channel = f }) i (closing ch out) (finish out) closed from
        (λ c h. absurd (finish-Sends out c (Holds-Sends (finish out) c h))) (λ c h. absurd h)
        (λ c h. absurd (finish-Sends out c h))
        (λ c o same. elim (update_elim (λ x. x.is_open ≡ true) s.channel ch shut c o) [
          | inl (e, h) ↦ absurd (ground arith)
          | inr (n, h) ↦ absurd (n same)
        ])
        (λ c h. absurd (finish-Follows out c h))
        (λ r e. v.replied i r (ap result from ∙ sym (result-finish out) ∙ e))

  pub Step-Inv : {s t : Flights} → Step ctx Upstream s t → Inv ctx Upstream s → Inv ctx Upstream t
  Step-Inv {s} (lead i from free) v = lead-Inv ctx Upstream s i v from free
  Step-Inv {s} (follow i ch from hit) v = follow-Inv ctx Upstream s i ch v from hit
  Step-Inv {s} (publish i ch raw from asked) v = publish-Inv s i ch raw v from asked
  Step-Inv {s} (cancel i ch from) v = cancel-Inv ctx Upstream s i ch v from
  Step-Inv {s} (remove i ch out from) v = remove-Inv ctx Upstream s i ch out v from
  Step-Inv {s} (close i ch out from) v = close-Inv s i ch out v from
  Step-Inv {s} (receive i ch raw from e) v = receive-Inv ctx Upstream s i ch raw v from e
  Step-Inv {s} (fail i ch from e o) v = fail-Inv ctx Upstream s i ch v from
  Step-Inv {s} (abandon i ch from) v = abandon-Inv ctx Upstream s i ch v from

  pub Reach-Inv : {s : Flights} → Reach ctx Upstream s → Inv ctx Upstream s
  Reach-Inv here = no_flights-Inv ctx Upstream
  Reach-Inv (later r st) = Step-Inv st (Reach-Inv r)
