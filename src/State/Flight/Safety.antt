-- ===== src/State/Flight/Safety.antt =====
-- What the single flight of src/state.rs promises, in every order of the steps of its tasks.
use mathlib.Core.Path.{subst}
use mini_dns.Prelude.{
  ℕ, ◌≡◌, refl, sym, ap, ◌∙◌, ◌⊎◌, inl, inr, some, List, arith, Bool-cases, Option-cases,
}
use mini_dns.Cache.{Key}
use mini_dns.Dns.Error.{Result}
use mini_dns.State.Local.{ForwardCtx}
use mini_dns.State.Flight.{
  Pc, leading, following, done, Flights, Step, receive, fail, Reach, at, replay_for, servfail_for,
}
use mini_dns.State.Flight.Invariant.{Holds, Sends, Follows, result, task_key, IsAnswer, Inv}
use mini_dns.State.Flight.Steps.{Reach-Inv}

module _ (ctx : ℕ → ForwardCtx) (Upstream : Key → List ℕ → Type 0) where
  -- Two tasks never ask upstream for the same name and type at once, and an entry of the map of flights
  -- is always that of a task which has not left yet, so that no entry outlives its flight.
  pub single_flight :
      (s : Flights)
      → Reach ctx Upstream s
      → ((i j ch ch' : ℕ)
          → s.pc i ≡ leading ch
          → s.pc j ≡ leading ch'
          → task_key ctx Upstream i ≡ task_key ctx Upstream j
          → i ≡ j)
        × ((k : Key) (ch : ℕ)
            → s.inflight k ≡ some ch
            → (i : ℕ) × (task_key ctx Upstream i ≡ k) × Holds (s.pc i) ch)
  single_flight s r = (alone, entry)
    where
      v : Inv ctx Upstream s
      v = Reach-Inv ctx Upstream r

      alone :
          (i j ch ch' : ℕ)
          → s.pc i ≡ leading ch
          → s.pc j ≡ leading ch'
          → task_key ctx Upstream i ≡ task_key ctx Upstream j
          → i ≡ j
      alone i j ch ch' from from' same =
          let h = v.held i ch (subst (λ x. Holds x ch) (sym from) refl) in
          let h' = v.held j ch' (subst (λ x. Holds x ch') (sym from') refl) in
          let one : ch ≡ ch' = ground (arith, ap s.inflight same) in
          sym (v.owned i ch (subst (λ x. Sends x ch) (sym from) refl)).1
          ∙ ap (λ d. (s.channel d).owner) one
          ∙ (v.owned j ch' (subst (λ x. Sends x ch') (sym from') refl)).1

      entry :
          (k : Key) (ch : ℕ)
          → s.inflight k ≡ some ch
          → (i : ℕ) × (task_key ctx Upstream i ≡ k) × Holds (s.pc i) ch
      entry k ch e = let old = v.entered k ch e in ((s.channel ch).owner, old.2, old.1)

  -- Every task that is done has a reply, framed for its own request, that is either what asking for its
  -- own name and type came to, once, by it or by the task it waited for, or SERVFAIL.
  pub done-IsAnswer :
      (s : Flights) (i : ℕ) (r : Result (List ℕ))
      → Reach ctx Upstream s
      → s.pc i ≡ done r
      → IsAnswer ctx Upstream i r
  done-IsAnswer s i r reach e = (Reach-Inv ctx Upstream reach).replied i r (ap result e)

  -- The task is done in one step.
  abbrev pub CanFinish : Flights → ℕ → Type 0
  CanFinish s i = (t : Flights) × (r : Result (List ℕ)) × Step ctx Upstream s t × (t.pc i ≡ done r)

  -- A task that waits for another is never left behind: it can finish at once, or some task with the
  -- same name and type still has the sender that it waits for.
  pub following-CanFinish :
      (s : Flights) (i ch : ℕ)
      → Reach ctx Upstream s
      → s.pc i ≡ following ch
      → CanFinish s i
        ⊎ ((j : ℕ) × Sends (s.pc j) ch × (task_key ctx Upstream j ≡ task_key ctx Upstream i))
  following-CanFinish s i ch reach from =
      let v = Reach-Inv ctx Upstream reach in
      let own = v.follows i ch (subst (λ x. Follows x ch) (sym from) refl) in
      elim (Option-cases (s.channel ch).value) [
        | inr (raw, e) ↦ inl (
          _,
          replay_for (ctx i) raw,
          receive i ch raw from e,
          placed (done (replay_for (ctx i) raw)),
        )
        | inl empty ↦ elim (Bool-cases (s.channel ch).is_open) [
          | inl o ↦ inr ((s.channel ch).owner, v.alive ch own.0 o empty, own.1)
          | inr shut ↦ inl (
            _,
            replay_for (ctx i) (servfail_for (ctx i)),
            fail i ch from empty shut,
            placed (done (replay_for (ctx i) (servfail_for (ctx i)))),
          )
        ]
      ]
    where
      placed : (p : Pc) → (at ctx Upstream s i p).pc i ≡ p
      placed p = ground arith
