-- ===== src/Forwarder/Replies.antt =====
-- Which bytes the forwarder of src/forwarder.rs relays.
use mini_dns.Prelude.{
  ℕ, zero, suc, ◌%◌, ◌^◌, ◌≡◌, ◌<◌, refl, ap, ◌⊎◌, inl, inr, Bool, true, false, Option, none, some,
  List, [], ◌∷◌, ◌++◌, ltb, if◌then◌else◌, length, Bool-cases, arith,
}
use mini_dns.Net.{SocketAddr}
use mini_dns.Dns.Encoder.{u16_bytes}
use mini_dns.Recursive.Messages.{Attempt, answered, failed, panicked, unframe, is_truncated}
use mini_dns.Forwarder.{
  Sockets, Forwarder, same_id, query_tcp, receive, query_once, forward_on, checkout, forward,
  max_stale, new,
}
use mini_dns.Forwarder.Datagrams.{
  HasId, IsCut, Carries, same_id-HasId, HasId-same_id, is_truncated-IsCut, IsCut-is_truncated,
  unframe-Carries, Carries-unframe,
}

module _ (N : Sockets) where
  -- The first of at most `n` datagrams that has the id of the query; those before it have another.
  pub data Heard (socket : ℕ) (query : List ℕ) : ℕ → N.World → List ℕ → N.World → Type 0 where
    next :
        {n : ℕ} {w w' : N.World} {buf : List ℕ}
        → N.recv socket w ≡ (some buf, w')
        → HasId query buf
        → Heard socket query (suc n) w buf w'
    stale :
        {n : ℕ} {w w' w'' : N.World} {old buf : List ℕ}
        → N.recv socket w ≡ (some old, w')
        → ¬ HasId query old
        → Heard socket query n w' buf w''
        → Heard socket query (suc n) w buf w''

  -- The datagram itself, if it is not cut, or else what the TCP stream carries that the upstream then
  -- writes for the query.
  abbrev pub Answers : SocketAddr → List ℕ → List ℕ → N.World → List ℕ → Type 0
  Answers upstream query buf w bytes =
      (¬ IsCut buf × (bytes ≡ buf))
      ⊎ (IsCut buf
          × ((stream : List ℕ) × ((N.tcp upstream (u16_bytes (length query % 2 ^ 16) ++ query) w).0
                ≡ some stream)
              × Carries bytes stream))

  -- None of `n` datagrams has the id of the query: the socket fails before, or all have another.
  pub data Missed (socket : ℕ) (query : List ℕ) : ℕ → N.World → Type 0 where
    no_more : {w : N.World} → Missed socket query 0 w
    silent : {n : ℕ} {w : N.World} → (N.recv socket w).0 ≡ none → Missed socket query (suc n) w
    stale :
        {n : ℕ} {w w' : N.World} {old : List ℕ}
        → N.recv socket w ≡ (some old, w')
        → ¬ HasId query old
        → Missed socket query n w'
        → Missed socket query (suc n) w

  -- The TCP stream fails, or ends before the message that it announces.
  abbrev pub IsBroken : SocketAddr → List ℕ → N.World → Type 0
  IsBroken upstream query w =
      ((N.tcp upstream (u16_bytes (length query % 2 ^ 16) ++ query) w).0 ≡ none)
      ⊎ ((stream : List ℕ) × ((N.tcp upstream (u16_bytes (length query % 2 ^ 16) ++ query) w).0
            ≡ some stream)
          × ((message : List ℕ) → ¬ Carries message stream))

  -- What `n` turns of the loop come to.
  abbrev pub Receives : ℕ → SocketAddr → ℕ → List ℕ → N.World → Attempt (List ℕ) → Type 0
  Receives n upstream socket query w (answered bytes) =
      (buf : List ℕ) × (w' : N.World) × Heard socket query n w buf w'
      × Answers upstream query buf w' bytes
  Receives n upstream socket query w failed =
      Missed socket query n w
      ⊎ ((buf : List ℕ) × (w' : N.World) × Heard socket query n w buf w'
          × IsCut buf
          × IsBroken upstream query w')
  Receives n upstream socket query w panicked = ⊥

  -- A socket of the pool, or a new one that is connected to the upstream.
  abbrev pub Connected : SocketAddr → List ℕ → N.World → ℕ → N.World → Type 0
  Connected upstream pool w socket w' =
      ((others : List ℕ) × (pool ≡ socket ∷ others) × (w' ≡ w))
      ⊎ ((pool ≡ []) × (N.connect upstream w ≡ (some socket, w')))

  abbrev pub Relays : SocketAddr → List ℕ → List ℕ → N.World → Attempt (List ℕ) → Type 0
  Relays upstream pool query w (answered bytes) =
      (socket : ℕ) × (w' : N.World) × (w'' : N.World) × Connected upstream pool w socket w'
      × (N.send socket query w' ≡ (true, w''))
      × Receives 4 upstream socket query w'' (answered bytes)
  Relays upstream pool query w failed =
      (length query < 2)
      ⊎ ((pool ≡ []) × ((N.connect upstream w).0 ≡ none))
      ⊎ ((socket : ℕ) × (w' : N.World) × Connected upstream pool w socket w'
          × ((N.send socket query w').0 ≡ false))
      ⊎ ((socket : ℕ) × (w' : N.World) × (w'' : N.World) × Connected upstream pool w socket w'
          × (N.send socket query w' ≡ (true, w''))
          × Receives 4 upstream socket query w'' failed)
  Relays upstream pool query w panicked = ⊥

  abbrev IsStream : SocketAddr → List ℕ → List ℕ → N.World → Attempt (List ℕ) → Type 0
  IsStream upstream query buf w (answered bytes) = Answers upstream query buf w bytes
  IsStream upstream query buf w failed = IsCut buf × IsBroken upstream query w
  IsStream upstream query buf w panicked = ⊥

  query_tcp-IsStream :
      (upstream : SocketAddr) (query buf : List ℕ) (w : N.World)
      → IsCut buf
      → IsStream upstream query buf w (query_tcp N upstream query w).0
  unfolding query_tcp
  query_tcp-IsStream upstream query buf w cut = written _ refl
    where
      carried :
          (s : List ℕ) (o : Option (List ℕ))
          → (N.tcp upstream (u16_bytes (length query % 2 ^ 16) ++ query) w).0 ≡ some s
          → unframe s ≡ o
          → IsStream upstream query buf w (elim o [ none ↦ failed | some resp ↦ answered resp ])
      carried s none e u = (cut, inr (s, e, (λ message c. cc (Carries-unframe s message c))))
      carried s (some resp) e u = inr (cut, (s, e, unframe-Carries s resp u))

      written :
          (o : Option (List ℕ))
          → (N.tcp upstream (u16_bytes (length query % 2 ^ 16) ++ query) w).0 ≡ o
          → IsStream upstream query buf w (elim o [
            | none ↦ failed
            | some bytes ↦ elim (unframe bytes) [ none ↦ failed | some resp ↦ answered resp ]
          ])
      written none e = (cut, inl e)
      written (some s) e = carried s (unframe s) e refl

  receive-Receives :
      (turns : ℕ) (upstream : SocketAddr) (socket : ℕ) (query : List ℕ) (w : N.World)
      → Receives turns upstream socket query w (receive N turns upstream socket query w).0
  unfolding receive
  receive-Receives zero upstream socket query w = inl no_more
  receive-Receives (suc turns) upstream socket query w =
      datagram (N.recv socket w).0 (N.recv socket w).1 refl
        (receive-Receives turns upstream socket query _)
    where
      heard :
          (buf : List ℕ) (w' : N.World) (r : Attempt (List ℕ))
          → N.recv socket w ≡ (some buf, w')
          → HasId query buf
          → IsStream upstream query buf w' r
          → Receives (suc turns) upstream socket query w r
      heard buf w' (answered bytes) e id h = (buf, w', next e id, h)
      heard buf w' failed e id (cut, h) = inr (buf, w', next e id, cut, h)
      heard buf w' panicked e id h = h

      matching :
          (buf : List ℕ) (w' : N.World)
          → N.recv socket w ≡ (some buf, w')
          → same_id buf query ≡ true
          → Receives
              (suc turns)
              upstream
              socket
              query
              w
              (if is_truncated buf then query_tcp N upstream query w' else (answered buf, w')).0
      matching buf w' e same =
          let id = same_id-HasId buf query same in
          elim (Bool-cases (is_truncated buf)) [
            | inl short ↦ rw short (
                heard buf w' _ e id
                  (query_tcp-IsStream upstream query buf w' (is_truncated-IsCut buf short)))
            | inr whole ↦ rw whole (
                heard buf w' (answered buf) e id
                  (inl ((λ cut. cc (IsCut-is_truncated buf cut)), refl)))
          ]

      passed :
          (buf : List ℕ) (w' : N.World) (r : Attempt (List ℕ))
          → N.recv socket w ≡ (some buf, w')
          → same_id buf query ≡ false
          → Receives turns upstream socket query w' r
          → Receives (suc turns) upstream socket query w r
      passed buf w' (answered bytes) e other (found, w'', h, a) =
          (found, w'', Heard.stale e (λ id. cc (HasId-same_id buf query id)) h, a)
      passed buf w' failed e other (inl missed) =
          inl (Missed.stale e (λ id. cc (HasId-same_id buf query id)) missed)
      passed buf w' failed e other (inr (found, w'', h, cut, broken)) =
          inr (found, w'', Heard.stale e (λ id. cc (HasId-same_id buf query id)) h, cut, broken)
      passed buf w' panicked e other h = h

      datagram :
          (o : Option (List ℕ)) (w' : N.World)
          → N.recv socket w ≡ (o, w')
          → Receives turns upstream socket query w' (receive N turns upstream socket query w').0
          → Receives
              (suc turns)
              upstream
              socket
              query
              w
              (elim o as (λ _. Attempt (List ℕ) × N.World) [
                | none ↦ (failed, w')
                | some buf ↦ elim (same_id buf query) [
                  | false ↦ receive N turns upstream socket query w'
                  | true ↦
                      if is_truncated buf then query_tcp N upstream query w' else (answered buf, w')
                ]
              ]).0
      datagram none w' e rest = inl (silent (ap (λ p. p.0) e))
      datagram (some buf) w' e rest = checked (same_id buf query) refl
        where
          checked :
              (b : Bool)
              → same_id buf query ≡ b
              → Receives
                  (suc turns)
                  upstream
                  socket
                  query
                  w
                  (elim b as (λ _. Attempt (List ℕ) × N.World) [
                    | false ↦ receive N turns upstream socket query w'
                    | true ↦
                        if is_truncated buf
                        then query_tcp N upstream query w'
                        else (answered buf, w')
                  ]).0
          checked true same = matching buf w' e same
          checked false other = passed buf w' _ e other rest

  query_once-Relays :
      (upstream : SocketAddr) (pool : List ℕ) (socket : ℕ) (query : List ℕ) (w w' : N.World)
      → Connected upstream pool w socket w'
      → Relays upstream pool query w (query_once N upstream socket query w').0
  unfolding query_once
  query_once-Relays upstream pool socket query w w' c =
      sent (N.send socket query w').0 (N.send socket query w').1 refl
    where
      received :
          (w'' : N.World) (r : Attempt (List ℕ))
          → N.send socket query w' ≡ (true, w'')
          → Receives 4 upstream socket query w'' r
          → Relays upstream pool query w r
      received w'' (answered bytes) e h = (socket, w', w'', c, e, h)
      received w'' failed e h = inr (inr (inr (socket, w', w'', c, e, h)))
      received w'' panicked e h = h

      sent :
          (b : Bool) (w'' : N.World)
          → N.send socket query w' ≡ (b, w'')
          → Relays upstream pool query w
              (if b then receive N max_stale upstream socket query w'' else (failed, w'')).0
      sent true w'' e = received w'' _ e (receive-Receives 4 upstream socket query w'')
      sent false w'' e = inr (inr (inl (socket, w', c, ap (λ p. p.0) e)))

  checkout-Relays :
      (upstream : SocketAddr) (pool query : List ℕ) (w : N.World)
      → Relays upstream pool query w (checkout N upstream pool query w).0
  unfolding checkout forward_on
  checkout-Relays upstream (socket ∷ pool) query w =
      query_once-Relays upstream (socket ∷ pool) socket query w w (inl (pool, refl, refl))
  checkout-Relays upstream [] query w =
      connected (N.connect upstream w).0 (N.connect upstream w).1 refl
    where
      connected :
          (o : Option ℕ) (w' : N.World)
          → N.connect upstream w ≡ (o, w')
          → Relays upstream [] query w
              (elim o as (λ _. Attempt (List ℕ) × Forwarder × N.World) [
                | none ↦ (failed, new upstream, w')
                | some socket ↦ forward_on N upstream [] socket query w'
              ]).0
      connected none w' e = inr (inl (refl, ap (λ p. p.0) e))
      connected (some socket) w' e = query_once-Relays upstream [] socket query w w' (inr (refl, e))

  -- What the forwarder relays for a query is the first of at most four datagrams that come next on the
  -- socket it was sent on which has the id of the query, or, if that one has TC set, the message of the
  -- TCP stream that the upstream then writes for the query. The socket is the first of the pool, or a
  -- new one where the pool is empty. It relays nothing only where the query has no id, no socket can be
  -- connected, the query cannot be sent, no such datagram comes, or the stream fails or ends too early.
  pub forward-Relays :
      (f : Forwarder) (query : List ℕ) (w : N.World)
      → Relays f.upstream f.pool query w (forward N f query w).0
  unfolding forward
  forward-Relays f query w = elim (Bool-cases (ltb (length query) 2)) [
    | inl short ↦ rw short (inl (ground arith))
    | inr long ↦ rw long (checkout-Relays f.upstream f.pool query w)
  ]
