-- ===== src/State/Flight/Invariant.antt =====
-- What holds between any two steps of the tasks in the single flight of src/state.rs.
use native.Mathlib.Decide.{ℕ_discrete}
use mathlib.Core.Path.{subst}
use mini_dns.Prelude.{
  ℕ, ◌≡◌, ◌≢◌, ◌<◌, refl, sym, ap, ◌∙◌, ◌⊎◌, inl, inr, true, false, Option, none, some, List, ◌==◌,
  arith,
}
use mini_dns.Cache.{Key}
use mini_dns.Dns.Error.{Result}
use mini_dns.State.Local.{ForwardCtx}
use mini_dns.State.Flight.{
  Pc, start, leading, leaving, closing, following, done, gone, Flights, update, replay_for,
  servfail_for, key, at, no_flights,
}

-- The task has the entry of its key.
abbrev pub Holds : Pc → ℕ → Type 0
Holds (leading c) ch = c ≡ ch
Holds (leaving c out) ch = c ≡ ch
Holds start ch = ⊥
Holds (closing c out) ch = ⊥
Holds (following c) ch = ⊥
Holds (done r) ch = ⊥
Holds gone ch = ⊥

-- The task has the sender of the channel.
abbrev pub Sends : Pc → ℕ → Type 0
Sends (leading c) ch = c ≡ ch
Sends (leaving c out) ch = c ≡ ch
Sends (closing c out) ch = c ≡ ch
Sends start ch = ⊥
Sends (following c) ch = ⊥
Sends (done r) ch = ⊥
Sends gone ch = ⊥

abbrev pub Follows : Pc → ℕ → Type 0
Follows (following c) ch = c ≡ ch
Follows start ch = ⊥
Follows (leading c) ch = ⊥
Follows (leaving c out) ch = ⊥
Follows (closing c out) ch = ⊥
Follows (done r) ch = ⊥
Follows gone ch = ⊥

-- The result that a task has or leaves with.
abbrev pub result : Pc → Option (Result (List ℕ))
result (leaving c out) = out
result (closing c out) = out
result (done r) = some r
result start = none
result (leading c) = none
result (following c) = none
result gone = none

module _ (ctx : ℕ → ForwardCtx) (Upstream : Key → List ℕ → Type 0) where
  abbrev pub task_key : ℕ → Key
  task_key i = key ctx Upstream i

  -- A reply made of what asking for the task's own name and type came to, or SERVFAIL.
  abbrev pub IsAnswer : ℕ → Result (List ℕ) → Type 0
  IsAnswer i r =
      ((raw : List ℕ) × Upstream (task_key i) raw × (r ≡ replay_for (ctx i) raw))
      ⊎ (r ≡ replay_for (ctx i) (servfail_for (ctx i)))

  pub record Inv (s : Flights) : Type 0 where
    pub held : (i ch : ℕ) → Holds (s.pc i) ch → s.inflight (task_key i) ≡ some ch
    pub entered :
        (k : Key) (ch : ℕ)
        → s.inflight k ≡ some ch
        → (ch < s.next) × Holds (s.pc (s.channel ch).owner) ch × (task_key (s.channel ch).owner ≡ k)
    pub owned : (i ch : ℕ) → Sends (s.pc i) ch → (ch < s.next) × ((s.channel ch).owner ≡ i)
    pub alive :
        (ch : ℕ)
        → ch < s.next
        → (s.channel ch).is_open ≡ true
        → (s.channel ch).value ≡ none
        → Sends (s.pc (s.channel ch).owner) ch
    pub follows :
        (i ch : ℕ)
        → Follows (s.pc i) ch
        → (ch < s.next) × (task_key (s.channel ch).owner ≡ task_key i)
    pub sourced :
        (ch : ℕ) (raw : List ℕ)
        → ch < s.next
        → (s.channel ch).value ≡ some raw
        → Upstream (task_key (s.channel ch).owner) raw
    pub replied : (i : ℕ) (r : Result (List ℕ)) → result (s.pc i) ≡ some r → IsAnswer i r

  pub no_flights-Inv : Inv (no_flights ctx Upstream)
  no_flights-Inv = record {
    held = λ i ch h. absurd h;
    entered = λ k ch e. absurd (ground arith);
    owned = λ i ch h. absurd h;
    alive = λ ch h. absurd (omega arith);
    follows = λ i ch h. absurd h;
    sourced = λ ch raw h. absurd (omega arith);
    replied = λ i r e. absurd (ground arith);
  }

-- A predicate on an updated place, from and to the two cases.
pub update_intro :
    {A : Type 0} (P : A → Type 0) (f : ℕ → A) (i : ℕ) (v : A) (j : ℕ)
    → (i ≡ j → P v)
    → (i ≢ j → P (f j))
    → P (update f i v j)
update_intro P f i v j hit miss = elim (ℕ_discrete i j) [
  | yes e ↦ let t : (i == j) ≡ true = ground arith in rw t (hit e)
  | no n ↦ let t : (i == j) ≡ false = ground arith in rw t (miss n)
]

pub update_elim :
    {A : Type 0} (P : A → Type 0) (f : ℕ → A) (i : ℕ) (v : A) (j : ℕ)
    → P (update f i v j)
    → ((i ≡ j) × P v) ⊎ ((i ≢ j) × P (f j))
update_elim P f i v j h = elim (ℕ_discrete i j) [
  | yes e ↦ let t : (i == j) ≡ true = ground arith in inl (e, rw t at h)
  | no n ↦ let t : (i == j) ≡ false = ground arith in inr (n, rw t at h)
]

module _ (ctx : ℕ → ForwardCtx) (Upstream : Key → List ℕ → Type 0) where
  -- A step that moves one task and nothing else, from `q` to `p`.
  pub Inv-at :
      (s : Flights) (i : ℕ) (q p : Pc)
      → Inv ctx Upstream s
      → s.pc i ≡ q
      → ((ch : ℕ) → Holds p ch → Holds q ch)
      → ((ch : ℕ) → Holds q ch → Holds p ch)
      → ((ch : ℕ) → Sends p ch → Sends q ch)
      → ((ch : ℕ) → (s.channel ch).is_open ≡ true → Sends q ch → Sends p ch)
      → ((ch : ℕ)
          → Follows p ch
          → (ch < s.next) × (task_key ctx Upstream (s.channel ch).owner ≡ task_key ctx Upstream i))
      → ((r : Result (List ℕ)) → result p ≡ some r → IsAnswer ctx Upstream i r)
      → Inv ctx Upstream (at ctx Upstream s i p)
  Inv-at s i q p v from hold hold' send send' fol rep = record {
    held = λ j ch h. elim (update_elim (λ x. Holds x ch) s.pc i p j h) [
      | inl (e, h') ↦
          subst (λ k. s.inflight (task_key ctx Upstream k) ≡ some ch) e
            (v.held i ch (subst (λ x. Holds x ch) (sym from) (hold ch h')))
      | inr (n, h') ↦ v.held j ch h'
    ];
    entered = λ k ch e.
        let old = v.entered k ch e in
        (
          old.0,
          update_intro (λ x. Holds x ch) s.pc i p (s.channel ch).owner
              (λ same. hold' ch (subst (λ x. Holds x ch) (ap s.pc (sym same) ∙ from) old.1))
              (λ n. old.1),
          old.2,
        );
    owned = λ j ch h. elim (update_elim (λ x. Sends x ch) s.pc i p j h) [
      | inl (e, h') ↦
          subst (λ k. (ch < s.next) × ((s.channel ch).owner ≡ k)) e
            (v.owned i ch (subst (λ x. Sends x ch) (sym from) (send ch h')))
      | inr (n, h') ↦ v.owned j ch h'
    ];
    alive = λ ch lt o none'.
        let old = v.alive ch lt o none' in
        update_intro (λ x. Sends x ch) s.pc i p (s.channel ch).owner
          (λ same. send' ch o (subst (λ x. Sends x ch) (ap s.pc (sym same) ∙ from) old)) (λ n. old);
    follows = λ j ch h. elim (update_elim (λ x. Follows x ch) s.pc i p j h) [
      | inl (e, h') ↦
          subst
            (λ k.
              (ch < s.next)
              × (task_key ctx Upstream (s.channel ch).owner ≡ task_key ctx Upstream k))
            e (fol ch h')
      | inr (n, h') ↦ v.follows j ch h'
    ];
    sourced = v.sourced;
    replied = λ j r h. elim (update_elim (λ x. result x ≡ some r) s.pc i p j h) [
      | inl (e, h') ↦ subst (λ k. IsAnswer ctx Upstream k r) e (rep r h')
      | inr (n, h') ↦ v.replied j r h'
    ];
  }

  pub follow-Inv :
      (s : Flights) (i ch : ℕ)
      → Inv ctx Upstream s
      → s.pc i ≡ start
      → s.inflight (task_key ctx Upstream i) ≡ some ch
      → Inv ctx Upstream (at ctx Upstream s i (following ch))
  follow-Inv s i ch v from e =
      let old = v.entered _ ch e in
      Inv-at s i start (following ch) v from (λ c h. h) (λ c h. h) (λ c h. h) (λ c o h. h)
        (λ c same.
          subst
            (λ d.
              (d < s.next) × (task_key ctx Upstream (s.channel d).owner ≡ task_key ctx Upstream i))
            same (old.0, old.2))
        (λ r e'. absurd (ground arith))

  pub cancel-Inv :
      (s : Flights) (i ch : ℕ)
      → Inv ctx Upstream s
      → s.pc i ≡ leading ch
      → Inv ctx Upstream (at ctx Upstream s i (leaving ch none))
  cancel-Inv s i ch v from =
      Inv-at s i (leading ch) (leaving ch none) v from (λ c h. h) (λ c h. h) (λ c h. h) (λ c o h. h)
        (λ c h. absurd h) (λ r e. absurd (ground arith))

  pub receive-Inv :
      (s : Flights) (i ch : ℕ) (raw : List ℕ)
      → Inv ctx Upstream s
      → s.pc i ≡ following ch
      → (s.channel ch).value ≡ some raw
      → Inv ctx Upstream (at ctx Upstream s i (done (replay_for (ctx i) raw)))
  receive-Inv s i ch raw v from e =
      let own = v.follows i ch (subst (λ x. Follows x ch) (sym from) refl) in
      let asked = subst (λ k. Upstream k raw) own.1 (v.sourced ch raw own.0 e) in
      Inv-at s i (following ch) (done (replay_for (ctx i) raw)) v from (λ c h. h) (λ c h. h)
        (λ c h. h) (λ c o h. h) (λ c h. absurd h) (λ r e'. inl (raw, asked, ground arith))

  pub fail-Inv :
      (s : Flights) (i ch : ℕ)
      → Inv ctx Upstream s
      → s.pc i ≡ following ch
      → Inv ctx Upstream (at ctx Upstream s i (done (replay_for (ctx i) (servfail_for (ctx i)))))
  fail-Inv s i ch v from =
      Inv-at s i (following ch) (done (replay_for (ctx i) (servfail_for (ctx i)))) v from (λ c h. h)
        (λ c h. h) (λ c h. h) (λ c o h. h) (λ c h. absurd h) (λ r e'. inr (ground arith))

  pub abandon-Inv :
      (s : Flights) (i ch : ℕ)
      → Inv ctx Upstream s
      → s.pc i ≡ following ch
      → Inv ctx Upstream (at ctx Upstream s i gone)
  abandon-Inv s i ch v from =
      Inv-at s i (following ch) gone v from (λ c h. h) (λ c h. h) (λ c h. h) (λ c o h. h)
        (λ c h. absurd h) (λ r e. absurd (ground arith))
