-- ===== src/State/Flight.antt =====
-- The single flight of `forward_ctx` in src/state.rs: the first task for a name and type asks
-- upstream, later ones wait for its result. Each access to what the tasks share (the map of flights,
-- the channels) is one step, and the steps of the tasks come in any order. A channel is a number; that
-- of a new flight was not used before. `owner` is the task that made the channel, which the program
-- does not record.
pub mod Invariant
pub mod Entries
pub mod Steps
pub mod Safety
use mini_dns.Prelude.{
  ℕ, suc, ◌≡◌, ◌<◌, Bool, true, false, Option, none, some, List, [], ◌∷◌, ◌==◌, if◌then◌else◌,
}
use mini_dns.Cache.{Key, key_eq}
use mini_dns.Dns.Error.{Result}
use mini_dns.Dns.Encoder.{to_bytes}
use mini_dns.State.{synth_response, replay}
use mini_dns.State.Local.{ForwardCtx}

abbrev pub rcode_servfail : ℕ
rcode_servfail = 2

-- Where a task stands. A leader leaves with its result, or without one if it is cancelled.
pub data Pc : Type 0 where
  start : Pc
  leading : (ch : ℕ) → Pc
  leaving : (ch : ℕ) (out : Option (Result (List ℕ))) → Pc
  closing : (ch : ℕ) (out : Option (Result (List ℕ))) → Pc
  following : (ch : ℕ) → Pc
  done : Result (List ℕ) → Pc
  gone : Pc

-- A `watch` channel: the value sent, and whether the sender is still there.
pub record Channel : Type 0 where
  pub owner : ℕ
  pub value : Option (List ℕ)
  pub is_open : Bool

pub record Flights : Type 0 where
  pub inflight : Key → Option ℕ
  pub channel : ℕ → Channel
  pub next : ℕ
  pub pc : ℕ → Pc

abbrev pub update : {A : Type 0} → (ℕ → A) → ℕ → A → ℕ → A
update f i v j = if i == j then v else f j

abbrev pub update_key : {A : Type 0} → (Key → A) → Key → A → Key → A
update_key f k v j = if key_eq k j then v else f j

abbrev pub key_of : ForwardCtx → Key
key_of c = (c.name, c.qtype)

-- A stored or synthesized reply for the request of a task.
abbrev pub replay_for : ForwardCtx → List ℕ → Result (List ℕ)
replay_for c raw = replay raw c.request c.transport

abbrev pub servfail_for : ForwardCtx → List ℕ
servfail_for c = to_bytes (synth_response c.request [] rcode_servfail)

abbrev pub finish : Option (Result (List ℕ)) → Pc
finish none = gone
finish (some r) = done r

-- The tasks, and what asking upstream for a name and type may come to.
module _ (ctx : ℕ → ForwardCtx) (Upstream : Key → List ℕ → Type 0) where
  abbrev pub key : ℕ → Key
  key i = key_of (ctx i)

  abbrev pub at : Flights → ℕ → Pc → Flights
  at s i p = record s { pc = update s.pc i p }

  pub data Step (s : Flights) : Flights → Type 0 where
    -- `Entry::Vacant`.
    lead :
        (i : ℕ)
        → s.pc i ≡ start
        → s.inflight (key i) ≡ none
        → Step s (record {
          inflight = update_key s.inflight (key i) (some s.next);
          channel = update s.channel s.next (record { owner = i; value = none; is_open = true });
          next = suc s.next;
          pc = update s.pc i (leading s.next);
        })
    -- `Entry::Occupied`.
    follow :
        (i ch : ℕ) → s.pc i ≡ start → s.inflight (key i) ≡ some ch → Step s (at s i (following ch))
    -- The result of `forward_and_cache` is sent.
    publish :
        (i ch : ℕ) (raw : List ℕ)
        → s.pc i ≡ leading ch
        → Upstream (key i) raw
        → Step s (record s {
          channel = update s.channel ch (record (s.channel ch) { value = some raw });
          pc = update s.pc i (leaving ch (some (replay_for (ctx i) raw)));
        })
    -- The future of the leader is dropped while it waits.
    cancel : (i ch : ℕ) → s.pc i ≡ leading ch → Step s (at s i (leaving ch none))
    -- The guard removes the entry.
    remove :
        (i ch : ℕ) (out : Option (Result (List ℕ)))
        → s.pc i ≡ leaving ch out
        → Step s (record s {
          inflight = update_key s.inflight (key i) none;
          pc = update s.pc i (closing ch out);
        })
    -- The sender is dropped.
    close :
        (i ch : ℕ) (out : Option (Result (List ℕ)))
        → s.pc i ≡ closing ch out
        → Step s (record s {
          channel = update s.channel ch (record (s.channel ch) { is_open = false });
          pc = update s.pc i (finish out);
        })
    receive :
        (i ch : ℕ) (raw : List ℕ)
        → s.pc i ≡ following ch
        → (s.channel ch).value ≡ some raw
        → Step s (at s i (done (replay_for (ctx i) raw)))
    -- The sender is gone and nothing was sent.
    fail :
        (i ch : ℕ)
        → s.pc i ≡ following ch
        → (s.channel ch).value ≡ none
        → (s.channel ch).is_open ≡ false
        → Step s (at s i (done (replay_for (ctx i) (servfail_for (ctx i)))))
    abandon : (i ch : ℕ) → s.pc i ≡ following ch → Step s (at s i gone)

  abbrev pub no_flights : Flights
  no_flights = record {
    inflight = λ k. none;
    channel = λ ch. record { owner = 0; value = none; is_open = false };
    next = 0;
    pc = λ i. start;
  }

  pub data Reach : Flights → Type 0 where
    here : Reach no_flights
    later : {s t : Flights} → Reach s → Step s t → Reach t
