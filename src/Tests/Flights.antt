-- ===== src/Tests/Flights.antt =====
-- Two tasks of src/state.rs with one question, in one flight, and the forwarder of src/forwarder.rs.
use mini_dns.Prelude.{ℕ, ◌+◌, ◌≡◌, refl, ◌⊎◌, true, none, some, List, [], ◌∷◌}
use mini_dns.Text.{text_eq}
use mini_dns.Cache.{Key}
use mini_dns.State.Local.{ForwardCtx}
use mini_dns.State.Flight.{
  leading, Flights, lead, follow, publish, receive, Reach, here, later, replay_for,
}
use mini_dns.State.Flight.Invariant.{Holds, Sends, task_key, IsAnswer}
use mini_dns.State.Flight.Safety.{single_flight, done-IsAnswer, CanFinish, following-CanFinish}
use mini_dns.Recursive.Messages.{answered, is_truncated}
use mini_dns.Forwarder.{Sockets, Forwarder, new, forward, checkout, forward_on, query_once, same_id}
use mini_dns.Forwarder
use mini_dns.Forwarder.Replies.{Relays, forward-Relays}
use mini_dns.Tests.Service.{ctx, upstream}

abbrev same_ctx : ℕ → ForwardCtx
same_ctx i = ctx

abbrev Anything : Key → List ℕ → Type 0
Anything k raw = Unit

-- A state with a schedule that reaches it.
abbrev Run : Type 0
Run = (s : Flights) × Reach same_ctx Anything s

-- Task 0 asks, and task 1 waits.
abbrev waiting : Run
unfolding text_eq
waiting = (_, later (later here (lead 0 refl refl)) (follow 1 0 refl refl))

abbrev raw : List ℕ
raw = 0 ∷ 9 ∷ 0x81 ∷ 0x80 ∷ []

-- Then task 0 sends the reply, and task 1 takes it.
abbrev ended : Run
unfolding text_eq
ended = (_, later (later waiting.1 (publish 0 0 raw refl tt)) (receive 1 0 raw refl refl))

single_flight_example :
    ((i j ch ch' : ℕ)
      → waiting.0.pc i ≡ leading ch
      → waiting.0.pc j ≡ leading ch'
      → task_key same_ctx Anything i ≡ task_key same_ctx Anything j
      → i ≡ j)
    × ((k : Key) (ch : ℕ)
        → waiting.0.inflight k ≡ some ch
        → (i : ℕ) × (task_key same_ctx Anything i ≡ k) × Holds (waiting.0.pc i) ch)
unfolding text_eq
single_flight_example = single_flight same_ctx Anything waiting.0 waiting.1

following-CanFinish_example :
    CanFinish same_ctx Anything waiting.0 1
    ⊎ ((j : ℕ) × Sends (waiting.0.pc j) 0
        × (task_key same_ctx Anything j ≡ task_key same_ctx Anything 1))
unfolding text_eq
following-CanFinish_example = following-CanFinish same_ctx Anything waiting.0 1 0 waiting.1 refl

done-IsAnswer_example : IsAnswer same_ctx Anything 1 (replay_for ctx raw)
unfolding text_eq
done-IsAnswer_example = done-IsAnswer same_ctx Anything ended.0 1 (replay_for ctx raw) ended.1 refl

-- The first datagram is stale, the second matches.
abbrev sockets : Sockets
sockets = record {
  World = ℕ;
  connect = λ upstream world. (some 1, world);
  send = λ socket query world. (true, world);
  recv = λ socket world. (some (5 ∷ world ∷ 0x81 ∷ 0x80 ∷ []), world + 1);
  tcp = λ upstream query world. (none, world);
}

abbrev question : List ℕ
question = 5 ∷ 8 ∷ 1 ∷ 0 ∷ []

relayed : (forward sockets (new upstream) question 7).0 ≡ answered (5 ∷ 8 ∷ 0x81 ∷ 0x80 ∷ [])
unfolding forward checkout forward_on query_once Forwarder.receive same_id is_truncated
relayed = refl

forward-Relays_example :
    Relays sockets upstream [] question 7 (forward sockets (new upstream) question 7).0
forward-Relays_example = forward-Relays sockets (new upstream) question 7
