-- ===== src/Dns/Parse/Packet/Total.antt =====
-- What a call of `DnsPacket::from_bytes` (src/dns/packet.rs) can come to on any buffer.
use mini_dns.Prelude.{
  ◌≢◌, ℕ, zero, suc, ◌+◌, ◌≤◌, ◌<◌, ◌≡◌, refl, ◌≢◌, ◌⊎◌, inl, inr, false, Option, List, arith, ltb,
  length,
}
use mini_dns.Text.{Text}
use mini_dns.Dns.Packet.{DnsPacket}
use mini_dns.Dns.Error.{Result, ok, err, panic, stuck, ◌>>=◌, ◌>>◌, fail_if, Field, truncated}
use native.Mathlib.Decide.{dec_lt}
use mini_dns.Dns.Record.{DnsRecord, type_rrsig, type_nsec}
use mini_dns.Dns.Buffer.{read_u16, read_u16-ok, read_u32-ok}
use mini_dns.Dns.Parse.Name.{parse_qname}
use mini_dns.Dns.Parse.Rdata.{parse_rdata}
use mini_dns.Dns.Parse.Rdata.Total.{parse_qname-cases}
use mini_dns.Dns.Parse.Rdata.Overrun.{NameOverruns, parse_rdata-ne-stuck, parse_rdata-panic}
use mini_dns.Dns.Parse.Packet.{
  parse_record, parse_section, parse_question, parse_questions, parse_header, from_bytes,
}

-- At `offset` stands an RRSIG or NSEC record with a name in its data that ends behind the data.
abbrev pub Overrun : List ℕ → ℕ → Type 0
Overrun buf offset =
    (n : Text) × (at : ℕ) × (t : ℕ) × (len : ℕ) × (parse_qname buf offset ≡ ok (n, at))
    × (read_u16 buf at ≡ ok t)
    × (read_u16 buf (at + 8) ≡ ok len)
    × (((t ≡ type_rrsig) × NameOverruns buf (at + 10 + 18) (at + 10 + len))
        ⊎ ((t ≡ type_nsec) × NameOverruns buf (at + 10) (at + 10 + len)))

-- The call returns, and a result satisfies `P`, or it panics at such a record.
abbrev pub Outcome {ℓ} : {A : Type ℓ} → List ℕ → (A → Type 0) → Result A → Type 0
Outcome buf P (ok x) = P x
Outcome buf P (err e) = Unit
Outcome buf P panic = (offset : ℕ) × Overrun buf offset
Outcome buf P stuck = ⊥

-- The offset beside the value lies between `least` and the end of the buffer.
abbrev pub EndsIn {ℓ} : {A : Type ℓ} → List ℕ → ℕ → A × ℕ → Type 0
EndsIn buf least r = (least ≤ r.1) × (r.1 ≤ length buf)

Outcome-bind {ℓ κ} :
    {A : Type ℓ} {B : Type κ} (buf : List ℕ) (P : A → Type 0) (Q : B → Type 0) (m : Result A)
    (f : A → Result B)
    → Outcome buf P m
    → ((x : A) → P x → Outcome buf Q (f x))
    → Outcome buf Q (m >>= f)
Outcome-bind buf P Q (ok x) f h k = k x h
Outcome-bind buf P Q (err e) f h k = tt
Outcome-bind buf P Q panic f h k = h
Outcome-bind buf P Q stuck f h k = elim h [ ]

-- The data of a record in range, once its fixed header is read.
record_body : (buf : List ℕ) (n : Text) (at t class ttl len : ℕ) → Result (Option DnsRecord × ℕ)
record_body buf n at t class ttl len = do
  fail_if (ltb (length buf) (at + 10 + len)) (truncated Field.record_data)
  parsed ← parse_rdata buf n ttl (at + 10) len t class
  ok (parsed, at + 10 + len)

finished-Outcome :
    (buf : List ℕ) (offset end : ℕ) (r : Result (Option DnsRecord))
    → offset + 11 ≤ end
    → end ≤ length buf
    → r ≢ stuck
    → (r ≡ panic → Overrun buf offset)
    → Outcome buf (EndsIn buf (offset + 11)) (r >>= λ parsed. ok (parsed, end))
finished-Outcome buf offset end (ok x) h k s p = (h, k)
finished-Outcome buf offset end (err e) h k s p = tt
finished-Outcome buf offset end panic h k s p = (offset, p refl)
finished-Outcome buf offset end stuck h k s p = s refl

record_body-Outcome :
    (buf : List ℕ) (offset : ℕ) (n : Text) (at t class ttl len : ℕ)
    → parse_qname buf offset ≡ ok (n, at)
    → offset < at
    → read_u16 buf at ≡ ok t
    → read_u16 buf (at + 8) ≡ ok len
    → Outcome buf (EndsIn buf (offset + 11)) (record_body buf n at t class ttl len)
unfolding record_body
record_body-Outcome buf offset n at t class ttl len e h e' e'' =
    elim (dec_lt (length buf) (at + 10 + len)) [
      | yes short ↦ ground arith
      | no fits ↦
          let g : ltb (length buf) (at + 10 + len) ≡ false = ground arith in
          rw (g, record_body)
            (finished-Outcome buf offset (at + 10 + len) _ (omega arith) (omega arith)
              (parse_rdata-ne-stuck buf n ttl (at + 10) len (omega arith) t class)
              (λ p. (
                n,
                at,
                t,
                len,
                e,
                e',
                e'',
                parse_rdata-panic buf n ttl (at + 10) len (omega arith) t class p,
              )))
    ]

parse_record-Outcome :
    (buf : List ℕ) (offset : ℕ) → Outcome buf (EndsIn buf (offset + 11)) (parse_record buf offset)
parse_record-Outcome buf offset = elim (parse_qname-cases buf offset) [
  | inl (x, e) ↦ unfold parse_record in ground arith
  | inr (n, at, e, bounds) ↦ elim (dec_lt (length buf) (at + 10)) [
    | yes short ↦ unfold parse_record in ground arith
    | no long ↦
        let (t, e0) = read_u16-ok buf at (omega arith) in
        let (class, e1) = read_u16-ok buf (at + 2) (omega arith) in
        let (ttl, e2) = read_u32-ok buf (at + 4) (omega arith) in
        let (len, e3) = read_u16-ok buf (at + 8) (omega arith) in
        let g : ltb (length buf) (at + 10) ≡ false = ground arith in
        let whole : parse_record buf offset ≡ record_body buf n at t class ttl len =
          unfold parse_record record_body in rw (e, g, e0, e1, e2, e3) in
        rw whole (record_body-Outcome buf offset n at t class ttl len e bounds.0 e0 e3)
  ]
]

section-Outcome :
    (count : ℕ) (buf : List ℕ) (offset : ℕ)
    → offset ≤ length buf
    → Outcome buf (EndsIn buf offset) (parse_section count buf offset)
unfolding parse_section
section-Outcome zero buf offset h = omega arith
section-Outcome (suc count) buf offset h =
    Outcome-bind buf (EndsIn buf (offset + 11)) _ (parse_record buf offset) _
      (parse_record-Outcome buf offset)
      λ r p.
        Outcome-bind buf (EndsIn buf r.1) _ (parse_section count buf r.1) _
          (section-Outcome count buf r.1 p.1) (λ s q. omega (arith, p, q))

question-Outcome :
    (buf : List ℕ) (offset : ℕ) → Outcome buf (EndsIn buf offset) (parse_question buf offset)
unfolding parse_question
question-Outcome buf offset = elim (parse_qname-cases buf offset) [
  | inl (x, e) ↦ ground arith
  | inr (n, at, e, bounds) ↦ ground (arith, read_u16-ok buf at, read_u16-ok buf (at + 2))
]

questions-Outcome :
    (count : ℕ) (buf : List ℕ) (offset : ℕ)
    → offset ≤ length buf
    → Outcome buf (EndsIn buf offset) (parse_questions count buf offset)
unfolding parse_questions
questions-Outcome zero buf offset h = omega arith
questions-Outcome (suc count) buf offset h =
    Outcome-bind buf (EndsIn buf offset) _ (parse_question buf offset) _
      (question-Outcome buf offset)
      λ r p.
        Outcome-bind buf (EndsIn buf r.1) _ (parse_questions count buf r.1) _
          (questions-Outcome count buf r.1 p.1) (λ s q. omega (arith, p, q))

header-Outcome : (buf : List ℕ) → Outcome buf (λ h. 12 ≤ length buf) (parse_header buf)
unfolding parse_header
header-Outcome buf = ground (
  arith,
  read_u16-ok buf 0,
  read_u16-ok buf 2,
  read_u16-ok buf 4,
  read_u16-ok buf 6,
  read_u16-ok buf 8,
  read_u16-ok buf 10,
)

-- On every buffer the parser of a message returns a packet or an error, or it panics, and then
-- at some offset of the buffer stands an RRSIG or NSEC record with a name that ends behind the
-- record's data. It never runs for ever, and nothing else makes it panic.
pub from_bytes-Outcome : (buf : List ℕ) → Outcome buf (λ p. 12 ≤ length buf) (from_bytes buf)
unfolding from_bytes
from_bytes-Outcome buf =
    Outcome-bind buf (λ h. 12 ≤ length buf) _ (parse_header buf) _ (header-Outcome buf)
      λ h long.
        Outcome-bind buf (EndsIn buf 12) _ (parse_questions h.questions buf 12) _
          (questions-Outcome h.questions buf 12 long)
          λ q at.
            Outcome-bind buf (EndsIn buf q.1) _ (parse_section h.answers buf q.1) _
              (section-Outcome h.answers buf q.1 at.1)
              λ n at'.
                Outcome-bind buf (EndsIn buf n.1) _ (parse_section h.authorities buf n.1) _
                  (section-Outcome h.authorities buf n.1 at'.1)
                  λ t at''.
                    Outcome-bind buf (EndsIn buf t.1) _ (parse_section h.additionals buf t.1) _
                      (section-Outcome h.additionals buf t.1 at''.1) (λ d _. long)

-- The fuel of the loops is enough.
pub from_bytes-ne-stuck : (buf : List ℕ) → from_bytes buf ≢ stuck
from_bytes-ne-stuck buf = returns (from_bytes buf) (from_bytes-Outcome buf)
  where
    returns : (m : Result DnsPacket) → Outcome buf (λ p. 12 ≤ length buf) m → m ≢ stuck
    returns (ok p) h = cc
    returns (err e) h = cc
    returns panic h = cc
    returns stuck h = absurd h
