-- ===== src/Forwarder.antt =====
-- src/forwarder.rs: the relay of raw queries to a stub upstream, over a pool of connected sockets. The
-- sockets are not part of the repository: a world in which they are numbers, and a call of one either
-- fails (in time, or by an error) or goes through. The semaphore, which only makes a call wait, and
-- what other tasks do to the pool in between are left out. The map of `MultiForwarder` makes a
-- forwarder on first use.
pub mod Datagrams
pub mod Replies
use mini_dns.Prelude.{
  ℕ, zero, suc, ◌%◌, ◌^◌, Bool, true, false, ◌&&◌, Option, none, some, List, [], ◌∷◌, ◌++◌, ltb,
  ◌==◌, if◌then◌else◌, length,
}
use mini_dns.Net.{SocketAddr}
use mini_dns.DashMap.{DashMap}
use mini_dns.Dns.Encoder.{u16_bytes}
use mini_dns.Recursive.Messages.{Attempt, answered, failed, panicked, unframe, is_truncated}

abbrev pub max_stale : ℕ
max_stale = 4

pub record Sockets : Type 1 where
  pub World : Type 0
  -- `bind` and `connect` of a new socket, `send`, `recv`, and an exchange over TCP with all that is
  -- written to the stream.
  pub connect : SocketAddr → World → Option ℕ × World
  pub send : ℕ → List ℕ → World → Bool × World
  pub recv : ℕ → World → Option (List ℕ) × World
  pub tcp : SocketAddr → List ℕ → World → Option (List ℕ) × World

pub record Forwarder : Type 0 where
  pub upstream : SocketAddr
  pub pool : List ℕ

abbrev pub new : SocketAddr → Forwarder
new upstream = record { upstream = upstream; pool = [] }

-- `len >= 2 && buf[0] == want[0] && buf[1] == want[1]`.
unfoldable pub same_id : List ℕ → List ℕ → Bool
same_id [] query = false
same_id (a ∷ []) query = false
same_id (a ∷ b ∷ buf) [] = false
same_id (a ∷ b ∷ buf) (c ∷ []) = false
same_id (a ∷ b ∷ buf) (c ∷ d ∷ query) = a == c && b == d

module _ (N : Sockets) where
  unfoldable pub query_tcp : SocketAddr → List ℕ → N.World → Attempt (List ℕ) × N.World
  query_tcp upstream query w =
      let (stream, w') = N.tcp upstream (u16_bytes (length query % 2 ^ 16) ++ query) w in
      (
        elim stream [
          | none ↦ failed
          | some bytes ↦ elim (unframe bytes) [ none ↦ failed | some resp ↦ answered resp ]
        ],
        w',
      )

  -- The loop over the datagrams, with the turns that are left.
  unfoldable pub receive : ℕ → SocketAddr → ℕ → List ℕ → N.World → Attempt (List ℕ) × N.World
  receive zero upstream socket query w = (failed, w)
  receive (suc turns) upstream socket query w =
      let (datagram, w') = N.recv socket w in
      elim datagram [
        | none ↦ (failed, w')
        | some buf ↦ elim (same_id buf query) [
          | false ↦ receive turns upstream socket query w'
          | true ↦ if is_truncated buf then query_tcp upstream query w' else (answered buf, w')
        ]
      ]

  unfoldable pub query_once : SocketAddr → ℕ → List ℕ → N.World → Attempt (List ℕ) × N.World
  query_once upstream socket query w =
      let (sent, w') = N.send socket query w in
      if sent then receive max_stale upstream socket query w' else (failed, w')

  -- `result.is_ok()`.
  abbrev pub is_ok : Attempt (List ℕ) → Bool
  is_ok (answered bytes) = true
  is_ok failed = false
  is_ok panicked = false

  -- A query on a socket that the pool no longer has; it goes back if the query succeeds.
  unfoldable pub forward_on :
      SocketAddr → List ℕ → ℕ → List ℕ → N.World → Attempt (List ℕ) × Forwarder × N.World
  forward_on upstream pool socket query w =
      let (result, w') = query_once upstream socket query w in
      (
        result,
        record { upstream = upstream; pool = (if is_ok result then socket ∷ pool else pool) },
        w',
      )

  -- A socket of the pool, or a new one.
  unfoldable pub checkout :
      SocketAddr → List ℕ → List ℕ → N.World → Attempt (List ℕ) × Forwarder × N.World
  checkout upstream (socket ∷ pool) query w = forward_on upstream pool socket query w
  checkout upstream [] query w =
      let (made, w') = N.connect upstream w in
      elim made [
        | none ↦ (failed, new upstream, w')
        | some socket ↦ forward_on upstream [] socket query w'
      ]

  unfoldable pub forward : Forwarder → List ℕ → N.World → Attempt (List ℕ) × Forwarder × N.World
  forward f query w =
      if ltb (length query) 2 then (failed, f, w) else checkout f.upstream f.pool query w

  -- `entry(upstream).or_insert_with(…)`.
  unfoldable pub or_new : Option Forwarder → SocketAddr → Forwarder
  or_new none upstream = new upstream
  or_new (some f) upstream = f

  module _ (M : DashMap SocketAddr Forwarder) where
    unfoldable pub forward_to :
        M.Map → List ℕ → SocketAddr → N.World → Attempt (List ℕ) × M.Map × N.World
    forward_to forwarders query upstream w =
        let (result, f, w') = forward (or_new (M.get forwarders upstream) upstream) query w in
        (result, M.insert upstream f forwarders, w')
