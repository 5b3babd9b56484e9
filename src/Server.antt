-- ===== src/Server.antt =====
-- `handle_dns_stream` of src/server.rs: the messages of a TCP or TLS connection, each behind two bytes
-- of length. The stream is what the client sends until it stops; what the server writes goes through.
pub mod Streams
use mini_dns.Prelude.{
  ℕ, zero, suc, ◌+◌, ◌*◌, ◌%◌, ◌^◌, List, [], ◌∷◌, ◌++◌, ltb, if◌then◌else◌, length, take, drop,
}
use mini_dns.Dns.Encoder.{u16_bytes}

-- What a message comes to: a reply, none, or a panic.
pub data Served : Type 0 where
  sent : List ℕ → Served
  silent : Served
  panicked : Served

-- How a connection ends: in order, with an error, by a panic, or with no rounds left in the model.
pub data Ending : Type 0 where
  closed : Ending
  broken : Ending
  crashed : Ending
  stuck : Ending

pub record Connection (S : Type 0) : Type 0 where
  pub written : List ℕ
  pub ending : Ending
  pub state : S

-- `resolve` for the state of the server.
module _ {S : Type 0} (serve : S → List ℕ → Served × S) where
  abbrev pub ends : Ending → S → Connection S
  ends e s = record { written = []; ending = e; state = s }

  -- `(resp.len() as u16).to_be_bytes()` and the reply, in front of what is written later.
  abbrev pub write_reply : List ℕ → Connection S → Connection S
  write_reply resp later = record later {
    written = u16_bytes (length resp % 2 ^ 16) ++ (resp ++ later.written);
  }

  unfoldable pub handle_dns_stream : (rounds : ℕ) → S → List ℕ → Connection S
  handle_dns_stream zero s stream = ends stuck s
  handle_dns_stream (suc rounds) s [] = ends closed s
  handle_dns_stream (suc rounds) s (hi ∷ []) = ends closed s
  handle_dns_stream (suc rounds) s (hi ∷ lo ∷ stream) =
      let len = hi * 256 + lo in
      let (served, s') = serve s (take len stream) in
      if ltb (length stream) len then ends broken s else elim served [
        | panicked ↦ ends crashed s'
        | silent ↦ handle_dns_stream rounds s' (drop len stream)
        | sent resp ↦ write_reply resp (handle_dns_stream rounds s' (drop len stream))
      ]
