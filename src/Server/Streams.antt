-- ===== src/Server/Streams.antt =====
-- What the connection loop of src/server.rs writes for the messages that a client sends.
use mini_dns.Prelude.{
  ℕ, zero, suc, ◌+◌, ◌*◌, ◌/◌, ◌%◌, ◌<◌, ◌≡◌, ◌≢◌, refl, ap, ◌∙◌, Bool, false, List, [], ◌∷◌, ◌++◌,
  arith, ltb, if◌then◌else◌, length, take, drop, length-append, length-drop, inl, inr, Bool-cases,
}
use mathlib.Core.List.{append_assoc}
use mini_dns.Dns.Encoder.{u16_bytes}
use mini_dns.Server.{
  Served, sent, silent, panicked, closed, broken, crashed, stuck, Connection, ends, write_reply,
  handle_dns_stream,
}

-- Two bytes with the length modulo 2^16, the high one first, and the bytes.
abbrev pub framed : List ℕ → List ℕ
framed bytes = length bytes / 256 % 256 ∷ length bytes % 256 ∷ bytes

-- The messages, each behind its length.
abbrev pub frames : List (List ℕ) → List ℕ
frames [] = []
frames (m ∷ ms) = framed m ++ frames ms

abbrev pub AreMessages : List (List ℕ) → Type 0
AreMessages [] = Unit
AreMessages (m ∷ ms) = (length m < 65536) × AreMessages ms

take-append : (xs ys : List ℕ) → take (length xs) (xs ++ ys) ≡ xs
take-append [] ys = refl
take-append (x ∷ xs) ys = ap (◌∷◌ x) (take-append xs ys)

drop-append : (xs ys : List ℕ) → drop (length xs) (xs ++ ys) ≡ ys
drop-append [] ys = refl
drop-append (x ∷ xs) ys = drop-append xs ys

-- What a connection has written, behind a reply.
abbrev pub framed_reply : {S : Type 0} → List ℕ → Connection S → Connection S
framed_reply resp later = record later { written = framed resp ++ later.written }

u16_bytes-high : (n : ℕ) → n % 65536 / 256 % 256 ≡ n / 256 % 256
u16_bytes-high n = omega arith

u16_bytes-low : (n : ℕ) → n % 65536 % 256 ≡ n % 256
u16_bytes-low n = omega arith

module _ {S : Type 0} (serve : S → List ℕ → Served × S) where
  write_reply-framed :
      (resp : List ℕ) (later : Connection S)
      → write_reply serve resp later ≡ framed_reply resp later
  write_reply-framed resp later =
      ap (λ (hi : ℕ). write_bytes hi (length resp % 65536 % 256)) (u16_bytes-high (length resp))
      ∙ ap (write_bytes (length resp / 256 % 256)) (u16_bytes-low (length resp))
    where
      write_bytes : ℕ → ℕ → Connection S
      write_bytes hi lo = record later { written = hi ∷ lo ∷ (resp ++ later.written) }

  -- Each message is served and answered in turn, until one panics.
  unfoldable pub answer_all : S → List (List ℕ) → Connection S
  answer_all s [] = ends serve closed s
  answer_all s (m ∷ ms) =
      let (served, s') = serve s m in
      elim served [
        | panicked ↦ ends serve crashed s'
        | silent ↦ answer_all s' ms
        | sent resp ↦ framed_reply resp (answer_all s' ms)
      ]

  -- A message in front of the stream is served, and the loop goes on behind it.
  handle_dns_stream-frame :
      (rounds : ℕ) (s : S) (m rest : List ℕ)
      → length m < 65536
      → handle_dns_stream serve (suc rounds) s (u16_bytes (length m) ++ (m ++ rest))
        ≡ (elim (serve s m).0 as (λ _. Connection S) [
          | panicked ↦ ends serve crashed (serve s m).1
          | silent ↦ handle_dns_stream serve rounds (serve s m).1 rest
          | sent resp ↦ write_reply serve resp (handle_dns_stream serve rounds (serve s m).1 rest)
        ])
  unfolding handle_dns_stream
  handle_dns_stream-frame rounds s m rest h =
      let len : length m / 256 % 256 * 256 + length m % 256 ≡ length m = omega arith in
      let cut = ltb (length (m ++ rest)) (length m) in
      let whole : cut ≡ false = ground (arith, length-append m rest) in
      ap (λ n. turn (take n (m ++ rest)) (drop n (m ++ rest)) (ltb (length (m ++ rest)) n)) len
      ∙ ap (λ x. turn x (drop (length m) (m ++ rest)) cut) (take-append m rest)
      ∙ ap (λ y. turn m y cut) (drop-append m rest)
      ∙ ap (turn m rest) whole
    where
      turn : (message later : List ℕ) → Bool → Connection S
      turn message later short = if short then ends serve broken s else elim (serve s message).0 [
        | panicked ↦ ends serve crashed (serve s message).1
        | silent ↦ handle_dns_stream serve rounds (serve s message).1 later
        | sent resp ↦
            write_reply serve resp (handle_dns_stream serve rounds (serve s message).1 later)
      ]

  handle_dns_stream-tail :
      (rounds : ℕ) (s : S) (tail : List ℕ)
      → length tail < 2
      → handle_dns_stream serve (suc rounds) s tail ≡ ends serve closed s
  unfolding handle_dns_stream
  handle_dns_stream-tail rounds s [] h = refl
  handle_dns_stream-tail rounds s (hi ∷ []) h = refl
  handle_dns_stream-tail rounds s (hi ∷ lo ∷ tail) h = absurd (omega arith)

  -- A client that sends any number of messages of less than 2^16 bytes, each behind its length, and then
  -- stops, at the latest within the next length, gets the replies to them in their order, each behind
  -- two bytes with its length modulo 2^16, and the connection ends in order unless serving one of them
  -- panics.
  pub handle_dns_stream-answers :
      (rounds : ℕ) (s : S) (ms : List (List ℕ)) (tail : List ℕ)
      → AreMessages ms
      → length tail < 2
      → length ms < rounds
      → handle_dns_stream serve rounds s (frames ms ++ tail) ≡ answer_all s ms
  unfolding answer_all
  handle_dns_stream-answers zero s ms tail h short enough = absurd (omega arith)
  handle_dns_stream-answers (suc rounds) s [] tail h short enough =
      handle_dns_stream-tail rounds s tail short
  handle_dns_stream-answers (suc rounds) s (m ∷ ms) tail h short enough =
      let turn = serve s m in
      ap (λ rest. handle_dns_stream serve (suc rounds) s (u16_bytes (length m) ++ rest))
        (append_assoc m (frames ms) tail)
      ∙ handle_dns_stream-frame rounds s m (frames ms ++ tail) h.0
      ∙ served turn.0 turn.1
          (handle_dns_stream-answers rounds turn.1 ms tail h.1 short (omega arith))
    where
      served :
          (r : Served) (s' : S)
          → handle_dns_stream serve rounds s' (frames ms ++ tail) ≡ answer_all s' ms
          → (elim r as (λ _. Connection S) [
            | panicked ↦ ends serve crashed s'
            | silent ↦ handle_dns_stream serve rounds s' (frames ms ++ tail)
            | sent resp ↦
                write_reply serve resp (handle_dns_stream serve rounds s' (frames ms ++ tail))
          ])
            ≡ (elim r as (λ _. Connection S) [
              | panicked ↦ ends serve crashed s'
              | silent ↦ answer_all s' ms
              | sent resp ↦ framed_reply resp (answer_all s' ms)
            ])
      served panicked s' ih = refl
      served silent s' ih = ih
      served (sent resp) s' ih =
          ap (write_reply serve resp) ih ∙ write_reply-framed resp (answer_all s' ms)

  -- The rounds are enough for any stream of fewer bytes.
  pub handle_dns_stream-ends :
      (rounds : ℕ) (s : S) (stream : List ℕ)
      → length stream < rounds
      → (handle_dns_stream serve rounds s stream).ending ≢ stuck
  unfolding handle_dns_stream
  handle_dns_stream-ends zero s stream h = absurd (omega arith)
  handle_dns_stream-ends (suc rounds) s [] h = λ e. cc
  handle_dns_stream-ends (suc rounds) s (hi ∷ []) h = λ e. cc
  handle_dns_stream-ends (suc rounds) s (hi ∷ lo ∷ stream) h =
      let len = hi * 256 + lo in
      let turn = serve s (take len stream) in
      let rest = drop len stream in
      elim (Bool-cases (ltb (length stream) len)) [
        | inl cut ↦ rw cut (λ e. cc)
        | inr all ↦ rw all (
            served turn.0 turn.1 rest
              (handle_dns_stream-ends rounds turn.1 rest (omega (arith, length-drop len stream))))
      ]
    where
      served :
          (r : Served) (s' : S) (rest : List ℕ)
          → (handle_dns_stream serve rounds s' rest).ending ≢ stuck
          → (elim r as (λ _. Connection S) [
            | panicked ↦ ends serve crashed s'
            | silent ↦ handle_dns_stream serve rounds s' rest
            | sent resp ↦ write_reply serve resp (handle_dns_stream serve rounds s' rest)
          ]).ending
            ≢ stuck
      served panicked s' rest ih = λ e. cc
      served silent s' rest ih = ih
      served (sent resp) s' rest ih = ih
