-- ===== src/State/Flight/Entries.antt =====
-- The steps of the single flight of src/state.rs that change the map of flights keep the invariant.
use native.Mathlib.Decide.{ℕ_discrete}
use mathlib.Core.Path.{subst}
use mini_dns.Prelude.{
  ℕ, suc, ◌≡◌, ◌≢◌, ◌<◌, refl, sym, ap, ◌∙◌, ◌⊎◌, inl, inr, true, Option, none, some, List, arith,
  Bool-cases,
}
use mini_dns.Cache.{Key, key_eq, key_eq_iff}
use mini_dns.Dns.Error.{Result}
use mini_dns.State.Local.{ForwardCtx}
use mini_dns.State.Flight.{
  Pc, start, leading, leaving, closing, Channel, Flights, update, update_key,
}
use mini_dns.State.Flight.Invariant.{
  Holds, Sends, Follows, result, task_key, IsAnswer, Inv, update_intro, update_elim,
}

update_key_intro :
    {A : Type 0} (P : A → Type 0) (f : Key → A) (k : Key) (v : A) (j : Key)
    → (k ≡ j → P v)
    → (k ≢ j → P (f j))
    → P (update_key f k v j)
update_key_intro P f k v j hit miss = elim (Bool-cases (key_eq k j)) [
  | inl t ↦ rw t (hit ((key_eq_iff k j).0 t))
  | inr t ↦ rw t (miss (λ e. ground (arith, (key_eq_iff k j).1 e)))
]

update_key_elim :
    {A : Type 0} (P : A → Type 0) (f : Key → A) (k : Key) (v : A) (j : Key)
    → P (update_key f k v j)
    → ((k ≡ j) × P v) ⊎ ((k ≢ j) × P (f j))
update_key_elim P f k v j h = elim (Bool-cases (key_eq k j)) [
  | inl t ↦ inl ((key_eq_iff k j).0 t, rw t at h)
  | inr t ↦ inr ((λ e. ground (arith, (key_eq_iff k j).1 e)), rw t at h)
]

-- A place below the updated one is as it was.
update_below : {A : Type 0} (f : ℕ → A) (n : ℕ) (v : A) (ch : ℕ) → ch < n → update f n v ch ≡ f ch
update_below f n v ch lt =
    update_intro (λ x. x ≡ f ch) f n v ch (λ e. absurd (omega arith)) (λ n'. refl)

update_here : {A : Type 0} (f : ℕ → A) (n : ℕ) (v : A) → update f n v n ≡ v
update_here f n v = update_intro (λ x. x ≡ v) f n v n (λ e. refl) (λ n'. absurd (n' refl))

pub Holds-Sends : (p : Pc) (ch : ℕ) → Holds p ch → Sends p ch
Holds-Sends (leading c) ch h = h
Holds-Sends (leaving c out) ch h = h
Holds-Sends (closing c out) ch h = absurd h
Holds-Sends p ch h = h

module _ (ctx : ℕ → ForwardCtx) (Upstream : Key → List ℕ → Type 0) where
  pub remove-Inv :
      (s : Flights) (i ch : ℕ) (out : Option (Result (List ℕ)))
      → Inv ctx Upstream s
      → s.pc i ≡ leaving ch out
      → Inv ctx Upstream (record s {
        inflight = update_key s.inflight (task_key ctx Upstream i) none;
        pc = update s.pc i (closing ch out);
      })
  remove-Inv s i ch out v from = record {
    held = λ j c h. elim (update_elim (λ x. Holds x c) s.pc i (closing ch out) j h) [
      | inl (e, h') ↦ absurd h'
      | inr (n, h') ↦
          update_key_intro (λ x. x ≡ some c) s.inflight (task_key ctx Upstream i) none
            (task_key ctx Upstream j) (λ same. absurd (n (rival j c h' same))) (λ n'. v.held j c h')
    ];
    entered = λ k c e.
        elim (update_key_elim (λ x. x ≡ some c) s.inflight (task_key ctx Upstream i) none k e) [
          | inl (same, e') ↦ absurd (ground arith)
          | inr (n, e') ↦
              let old = v.entered k c e' in
              (
                old.0,
                update_intro (λ x. Holds x c) s.pc i (closing ch out) (s.channel c).owner
                    (λ same. absurd (n (ap (task_key ctx Upstream) same ∙ old.2))) (λ n'. old.1),
                old.2,
              )
        ];
    owned = λ j c h. elim (update_elim (λ x. Sends x c) s.pc i (closing ch out) j h) [
      | inl (e, h') ↦
          subst (λ k. (c < s.next) × ((s.channel c).owner ≡ k)) e (v.owned i c (mine c h'))
      | inr (n, h') ↦ v.owned j c h'
    ];
    alive = λ c lt o n.
        let old = v.alive c lt o n in
        update_intro (λ x. Sends x c) s.pc i (closing ch out) (s.channel c).owner
          (λ same. subst (λ x. Sends x c) (ap s.pc (sym same) ∙ from) old) (λ n'. old);
    follows = λ j c h. elim (update_elim (λ x. Follows x c) s.pc i (closing ch out) j h) [
      | inl (e, h') ↦ absurd h'
      | inr (n, h') ↦ v.follows j c h'
    ];
    sourced = v.sourced;
    replied = λ j r h. elim (update_elim (λ x. result x ≡ some r) s.pc i (closing ch out) j h) [
      | inl (e, h') ↦ subst (λ k. IsAnswer ctx Upstream k r) e (v.replied i r (ap result from ∙ h'))
      | inr (n, h') ↦ v.replied j r h'
    ];
  }
    where
      mine : (c : ℕ) → ch ≡ c → Sends (s.pc i) c
      mine c e = subst (λ x. Sends x c) (sym from) e

      -- Another task with an entry of this key would have this task's channel.
      rival :
          (j c : ℕ) → Holds (s.pc j) c → task_key ctx Upstream i ≡ task_key ctx Upstream j → i ≡ j
      rival j c h same =
          let here' = v.held i ch (subst (λ x. Holds x ch) (sym from) refl) in
          let there = v.held j c h in
          let one : ch ≡ c = ground (arith, ap s.inflight same) in
          sym (v.owned i ch (mine ch refl)).1
          ∙ ap (λ d. (s.channel d).owner) one
          ∙ (v.owned j c (Holds-Sends (s.pc j) c h)).1

  pub lead-Inv :
      (s : Flights) (i : ℕ)
      → Inv ctx Upstream s
      → s.pc i ≡ start
      → s.inflight (task_key ctx Upstream i) ≡ none
      → Inv ctx Upstream (record {
        inflight = update_key s.inflight (task_key ctx Upstream i) (some s.next);
        channel = update s.channel s.next (record { owner = i; value = none; is_open = true });
        next = suc s.next;
        pc = update s.pc i (leading s.next);
      })
  lead-Inv s i v from free = record {
    held = λ j c h. elim (update_elim (λ x. Holds x c) s.pc i (leading s.next) j h) [
      | inl (e, h') ↦
          subst (λ k. flights (task k) ≡ some c) e
            (update_key_intro (λ x. x ≡ some c) s.inflight (task i) (some s.next) (task i)
              (λ e'. ap some h') (λ n. absurd (n refl)))
      | inr (n, h') ↦
          update_key_intro (λ x. x ≡ some c) s.inflight (task i) (some s.next) (task j)
            (λ same. absurd (taken j c same (v.held j c h'))) (λ n'. v.held j c h')
    ];
    entered = λ k c e.
        elim (update_key_elim (λ x. x ≡ some c) s.inflight (task i) (some s.next) k e) [
          | inl (same, e') ↦
              let one : s.next ≡ c = ground arith in
              subst
                (λ d. (d < suc s.next) × Holds (pcs (chans d).owner) d × (task (chans d).owner ≡ k))
                one
                (subst
                  (λ x. (s.next < suc s.next) × Holds (pcs x.owner) s.next × (task x.owner ≡ k))
                  (sym made) (omega arith, subst (λ p. Holds p s.next) (sym placed) refl, same))
          | inr (n, e') ↦
              let old = v.entered k c e' in
              subst (λ x. (c < suc s.next) × Holds (pcs x.owner) c × (task x.owner ≡ k))
                (sym (kept c old.0))
                (omega arith, others (λ x. Holds x c) (s.channel c).owner (λ h. h) old.1, old.2)
        ];
    owned = λ j c h. elim (update_elim (λ x. Sends x c) s.pc i (leading s.next) j h) [
      | inl (e, h') ↦
          subst (λ d. (d < suc s.next) × ((chans d).owner ≡ j)) h'
            (omega arith, ap (λ x. x.owner) made ∙ e)
      | inr (n, h') ↦
          let old = v.owned j c h' in (omega arith, ap (λ x. x.owner) (kept c old.0) ∙ old.1)
    ];
    alive = λ c lt o n. elim (ℕ_discrete s.next c) [
      | yes one ↦
          subst (λ d. Sends (pcs (chans d).owner) d) one
            (subst (λ x. Sends (pcs x.owner) s.next) (sym made)
              (subst (λ p. Sends p s.next) (sym placed) refl))
      | no more ↦
          let below : c < s.next = omega arith in
          let same = kept c below in
          let old =
            v.alive c below (ap (λ x. x.is_open) (sym same) ∙ o)
              (ap (λ x. x.value) (sym same) ∙ n) in
          subst (λ x. Sends (pcs x.owner) c) (sym same)
            (others (λ x. Sends x c) (s.channel c).owner (λ h. h) old)
    ];
    follows = λ j c h. elim (update_elim (λ x. Follows x c) s.pc i (leading s.next) j h) [
      | inl (e, h') ↦ absurd h'
      | inr (n, h') ↦
          let old = v.follows j c h' in (omega arith, ap (λ x. task x.owner) (kept c old.0) ∙ old.1)
    ];
    sourced = λ c raw lt e. elim (ℕ_discrete s.next c) [
      | yes one ↦
          let empty : (chans c).value ≡ none =
            subst (λ d. (chans d).value ≡ none) one (ap (λ x. x.value) made) in
          absurd (ground arith)
      | no more ↦
          let below : c < s.next = omega arith in
          let same = kept c below in
          subst (λ x. Upstream (task x.owner) raw) (sym same)
            (v.sourced c raw below (ap (λ x. x.value) (sym same) ∙ e))
    ];
    replied = λ j r h. elim (update_elim (λ x. result x ≡ some r) s.pc i (leading s.next) j h) [
      | inl (e, h') ↦ absurd (ground arith)
      | inr (n, h') ↦ v.replied j r h'
    ];
  }
    where
      task : ℕ → Key
      task = task_key ctx Upstream

      new : Channel
      new = record { owner = i; value = none; is_open = true }

      flights : Key → Option ℕ
      flights = update_key s.inflight (task i) (some s.next)

      chans : ℕ → Channel
      chans = update s.channel s.next new

      pcs : ℕ → Pc
      pcs = update s.pc i (leading s.next)

      made : chans s.next ≡ new
      made = update_here s.channel s.next new

      placed : pcs i ≡ leading s.next
      placed = update_here s.pc i (leading s.next)

      kept : (c : ℕ) → c < s.next → chans c ≡ s.channel c
      kept c lt = update_below s.channel s.next new c lt

      taken : (j c : ℕ) → task i ≡ task j → s.inflight (task j) ≡ some c → ⊥
      taken j c same e = ground (arith, ap s.inflight same)

      -- What the new leader, who was at the start, did not have, other tasks have still.
      others : (P : Pc → Type 0) (j : ℕ) → (P start → ⊥) → P (s.pc j) → P (pcs j)
      others P j nobody h =
          update_intro P s.pc i (leading s.next) j
            (λ same. absurd (nobody (subst P (ap s.pc (sym same) ∙ from) h))) (λ n. h)
