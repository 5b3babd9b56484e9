-- ===== src/Dns/Parse/Name.antt =====
-- `DnsPacket::parse_qname` of src/dns/packet.rs: a name with compression pointers. The loop is a
-- step on its five variables, repeated on fuel.
use mini_dns.Prelude.{
  ℕ, zero, suc, ◌+◌, ◌-◌, ◌*◌, ◌≤◌, ◌<◌, ◌≡◌, Bool, true, false, List, [], ◌∷◌, ◌++◌, arith, ltb,
  leb, ◌==◌, not, if◌then◌else◌, length, bit_and, inl, inr,
}
use mini_dns.Text.{Text, dot, strip_dot}
use mini_dns.Text.Utf8.{from_utf8_lossy}
use mini_dns.Dns.Error.{
  Result, ok, stuck, ◌>>=◌, truncated, pointer_loop, Field, Ensures, fail_if, Ensures-bind, ◌>>◌,
}
use mini_dns.Dns.Buffer.{byte_at, slice, byte_at-ok, byte_at-cases}

abbrev pub max_pointer_jumps : ℕ
max_pointer_jumps = 64

pub record NameState : Type 0 where
  pub qname : Text
  pub current : ℕ
  pub jumped : Bool
  pub end_offset : ℕ
  pub jumps : ℕ

-- `continue`, or the `break` after the root label.
pub data Turn : Type 0 where
  again : NameState → Turn
  done : NameState → Turn

-- The two high bits are set, or one of them.
unfoldable pub is_pointer : ℕ → Bool
is_pointer len = not (bit_and len 0xC0 == 0)

unfoldable pub follow_pointer : List ℕ → NameState → Result Turn
follow_pointer buf s = do
  fail_if (leb (length buf) (s.current + 1)) (truncated Field.compression_pointer)
  fail_if (ltb max_pointer_jumps (s.jumps + 1)) pointer_loop
  high ← byte_at buf s.current
  low ← byte_at buf (s.current + 1)
  ok (
      again (record {
        qname = s.qname;
        current = bit_and high 0x3F * 256 + low;
        jumped = true;
        end_offset = if s.jumped then s.end_offset else s.current + 2;
        jumps = s.jumps + 1;
      }))

unfoldable pub take_label : List ℕ → NameState → ℕ → Result Turn
take_label buf s len = do
  fail_if (ltb (length buf) (s.current + 1 + len)) (truncated Field.qname_label)
  label ← slice buf (s.current + 1) (s.current + 1 + len)
  ok (
      again (record s {
        qname = s.qname ++ (from_utf8_lossy label ++ (dot ∷ []));
        current = s.current + 1 + len;
      }))

-- The root label.
unfoldable pub finish : NameState → NameState
finish s = record s { end_offset = if s.jumped then s.end_offset else s.current + 1 }

unfoldable pub qname_turn : List ℕ → NameState → Result Turn
qname_turn buf s = do
  fail_if (leb (length buf) s.current) (truncated Field.qname_label_length)
  len ← byte_at buf s.current
  if is_pointer len
      then follow_pointer buf s
      else if len == 0
      then ok (done (finish s))
      else take_label buf s len

unfoldable pub qname_loop : ℕ → List ℕ → NameState → Result NameState
qname_loop zero buf s = stuck
qname_loop (suc fuel) buf s =
    qname_turn buf s >>= λ t. elim t [ done s' ↦ ok s' | again s' ↦ qname_loop fuel buf s' ]

abbrev pub start_at : ℕ → NameState
start_at offset = record { qname = []; current = offset; jumped = false; end_offset = 0; jumps = 0 }

-- Between two jumps the offset grows by two at least, and there are 64 jumps at most.
abbrev pub qname_fuel : List ℕ → ℕ
qname_fuel buf = 65 * (length buf + 1)

unfoldable pub parse_qname : List ℕ → ℕ → Result (Text × ℕ)
unfolding qname_loop qname_turn finish follow_pointer take_label is_pointer strip_dot
    from_utf8_lossy byte_at slice
parse_qname buf offset = do
  s ← qname_loop (qname_fuel buf) buf (start_at offset)
  ok (strip_dot s.qname, s.end_offset)

-- An invariant of the loop, and a bound on the rounds that are left.
record InBounds (buf : List ℕ) (offset : ℕ) (s : NameState) : Type 0 where
  forward : s.jumped ≡ false → offset ≤ s.current
  passed : s.jumped ≡ true → (offset < s.end_offset) × (s.end_offset ≤ length buf)
  jumps_le : s.jumps ≤ 64

abbrev rounds : List ℕ → NameState → ℕ
rounds buf s = (64 - s.jumps) * (length buf + 1) + (length buf - s.current)

abbrev Finished : List ℕ → ℕ → NameState → Type 0
Finished buf offset s = (offset < s.end_offset) × (s.end_offset ≤ length buf)

abbrev Progress : List ℕ → ℕ → NameState → Turn → Type 0
Progress buf offset s (done s') = Finished buf offset s'
Progress buf offset s (again s') = InBounds buf offset s' × (rounds buf s' < rounds buf s)

jump_shrinks :
    (j l c c' : ℕ)
    → j < 64
    → c < l
    → (64 - (j + 1)) * (l + 1) + (l - c') < (64 - j) * (l + 1) + (l - c)
jump_shrinks j l c c' h k = grind arith

follow_pointer-Progress :
    (buf : List ℕ) (offset : ℕ) (s : NameState)
    → InBounds buf offset s
    → s.current < length buf
    → Ensures (Progress buf offset s) (follow_pointer buf s)
unfolding follow_pointer
follow_pointer-Progress buf offset s inv h =
    let (high, at_high) = byte_at-ok buf s.current h in
    elim (byte_at-cases buf (s.current + 1)) [
      | inl outside ↦ ground arith
      | inr (low, at_low) ↦
          ground
            (arith, jump_shrinks s.jumps (length buf) s.current (bit_and high 0x3F * 256 + low))
    ]

take_label-Progress :
    (buf : List ℕ) (offset : ℕ) (s : NameState) (len : ℕ)
    → InBounds buf offset s
    → 0 < len
    → Ensures (Progress buf offset s) (take_label buf s len)
unfolding take_label slice
take_label-Progress buf offset s len inv h = ground arith

qname_turn-Progress :
    (buf : List ℕ) (offset : ℕ) (s : NameState)
    → InBounds buf offset s
    → Ensures (Progress buf offset s) (qname_turn buf s)
unfolding qname_turn finish
qname_turn-Progress buf offset s inv = elim (byte_at-cases buf s.current) [
  | inl outside ↦ ground arith
  | inr (len, at_len) ↦
      ground (arith, follow_pointer-Progress buf offset s, take_label-Progress buf offset s len)
]

qname_loop-Ensures :
    (fuel : ℕ) (buf : List ℕ) (offset : ℕ) (s : NameState)
    → rounds buf s < fuel
    → InBounds buf offset s
    → Ensures (Finished buf offset) (qname_loop fuel buf s)
unfolding qname_loop
qname_loop-Ensures zero buf offset s h inv = elim h [ ]
qname_loop-Ensures (suc fuel) buf offset s h inv =
    Ensures-bind (Progress buf offset s) _ (qname_turn buf s) _
      (qname_turn-Progress buf offset s inv)
      (elim [
        | done s' ↦ λ p. p
        | again s' ↦ λ p. qname_loop-Ensures fuel buf offset s' (omega (arith, p.1)) p.0
      ])

-- On every buffer and offset the parser of a name returns: it never runs out of rounds, and never
-- reads out of range. Where it succeeds, the name ends behind the offset and inside the buffer.
pub parse_qname-bounds :
    (buf : List ℕ) (offset : ℕ)
    → Ensures (λ p. (offset < p.1) × (p.1 ≤ length buf)) (parse_qname buf offset)
unfolding parse_qname
parse_qname-bounds buf offset =
    Ensures-bind (Finished buf offset) _ (qname_loop (qname_fuel buf) buf (start_at offset)) _
      (qname_loop-Ensures (qname_fuel buf) buf offset (start_at offset) (omega arith)
        (record { forward = λ _. omega arith; passed = λ e. cc; jumps_le = omega arith }))
      (λ s h. h)
