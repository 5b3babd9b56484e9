-- ===== src/Dns/Encoder/Spelled.antt =====
-- A name as it stands in a message with compression: what `parse_qname` of src/dns/packet.rs reads.
use mini_dns.Prelude.{
  ℕ, zero, suc, ◌+◌, ◌*◌, ◌/◌, ◌%◌, ◌≤◌, ◌<◌, ◌≡◌, refl, sym, ap, ◌∙◌, ◌⊎◌, inl, inr, true, false,
  List, [], ◌∷◌, ◌++◌, arith, ltb, leb, ◌==◌, if◌then◌else◌, length, length-append, bit_and,
}
use mini_dns.Prelude.Pointer.{bit_or-pointer, bit_and-high_bits, bit_and-low_bits}
use mathlib.Core.List.{append-nil, append_assoc}
use mini_dns.Text.{Text, dot}
use mini_dns.Dns.Error.{Result, ok, stuck, ◌>>=◌, ◌>>◌, fail_if}
use mini_dns.Dns.Buffer.{byte_at}
use mini_dns.Dns.Buffer.Append.{byte_at-append}
use mini_dns.Dns.Parse.Name.{
  NameState, again, done, is_pointer, follow_pointer, finish, qname_turn, qname_loop,
  max_pointer_jumps,
}
use mini_dns.Dns.Encoder.{u16_bytes, pointer}
use mini_dns.Dns.Encoder.Names.{IsLabel, dotted, label_turn, root_turn}

-- At the offset `at` the labels are spelled, following at most `depth` pointers, and the bytes that
-- stand there themselves end at `end`.
pub data Spelled (buf : List ℕ) : (depth at end : ℕ) → List Text → Type 0 where
  root :
      {depth at end : ℕ} (pre post : List ℕ)
      → buf ≡ pre ++ (0 ∷ post)
      → at ≡ length pre
      → end ≡ at + 1
      → Spelled buf depth at end []
  label :
      {depth at end : ℕ} {labels : List Text} (pre name post : List ℕ)
      → buf ≡ pre ++ (length name ∷ (name ++ post))
      → at ≡ length pre
      → IsLabel name
      → Spelled buf depth (at + 1 + length name) end labels
      → Spelled buf depth at end (name ∷ labels)
  jump :
      {depth at end target behind : ℕ} {labels : List Text} (pre post : List ℕ)
      → buf ≡ pre ++ (u16_bytes (pointer target) ++ post)
      → at ≡ length pre
      → end ≡ at + 2
      → target < 0x4000
      → Spelled buf depth target behind labels
      → Spelled buf (suc depth) at end labels

more_behind :
    (buf pre part post more : List ℕ)
    → buf ≡ pre ++ (part ++ post)
    → buf ++ more ≡ pre ++ (part ++ (post ++ more))
more_behind buf pre part post more e =
    ap (λ b. b ++ more) e
    ∙ append_assoc pre (part ++ post) more
    ∙ ap (λ b. pre ++ b) (append_assoc part post more)

-- Bytes written behind change nothing.
pub Spelled-append :
    {buf : List ℕ} {depth at end : ℕ} {labels : List Text} (more : List ℕ)
    → Spelled buf depth at end labels
    → Spelled (buf ++ more) depth at end labels
Spelled-append {buf = buf} more (root pre post e at end) =
    root pre (post ++ more) (more_behind buf pre (0 ∷ []) post more e) at end
Spelled-append {buf = buf} more (label pre name post e at fine rest) =
    label pre name (post ++ more) (more_behind buf pre (length name ∷ name) post more e) at fine
      (Spelled-append more rest)
Spelled-append {buf = buf} more (jump {target = target} pre post e at end near rest) =
    jump pre (post ++ more) (more_behind buf pre (u16_bytes (pointer target)) post more e) at end
      near (Spelled-append more rest)

-- One more pointer is allowed.
pub Spelled-suc :
    {buf : List ℕ} {depth at end : ℕ} {labels : List Text}
    → Spelled buf depth at end labels
    → Spelled buf (suc depth) at end labels
Spelled-suc (root pre post e at end) = root pre post e at end
Spelled-suc (label pre name post e at fine rest) = label pre name post e at fine (Spelled-suc rest)
Spelled-suc (jump pre post e at end near rest) = jump pre post e at end near (Spelled-suc rest)

second_byte :
    (pre : List ℕ) (high low : ℕ) (post : List ℕ)
    → byte_at (pre ++ (high ∷ low ∷ post)) (length pre + 1) ≡ ok low
second_byte pre high low post =
    let n : length (pre ++ (high ∷ [])) ≡ length pre + 1 =
      omega (arith, length-append pre (high ∷ [])) in
    rw (sym (append_assoc pre (high ∷ []) (low ∷ post)), sym n)
      (byte_at-append (pre ++ (high ∷ [])) low post)

pointer_turn :
    (pre post : List ℕ) (target : ℕ) (s : NameState)
    → s.current ≡ length pre
    → s.jumps < 64
    → target < 0x4000
    → qname_turn (pre ++ (u16_bytes (pointer target) ++ post)) s
      ≡ ok (
          again (record {
            qname = s.qname;
            current = target;
            jumped = true;
            end_offset = if s.jumped then s.end_offset else s.current + 2;
            jumps = s.jumps + 1;
          }))
unfolding qname_turn follow_pointer is_pointer
pointer_turn pre post target s at few near =
    let high = pointer target / 256 % 256 in
    let low = pointer target % 256 in
    let buf = pre ++ (high ∷ low ∷ post) in
    let value = bit_or-pointer target near in
    let high_is : high ≡ 192 + target / 256 = omega arith in
    let low_is : low ≡ target % 256 = omega arith in
    let total : length buf ≡ length pre + suc (suc (length post)) =
      length-append pre (high ∷ low ∷ post) in
    let inside : leb (length buf) (length pre) ≡ false = ground arith in
    let whole : leb (length buf) (length pre + 1) ≡ false = ground arith in
    let allowed : ltb max_pointer_jumps (s.jumps + 1) ≡ false = ground arith in
    let ptr : (bit_and high 0xC0 == 0) ≡ false =
      rw high_is (ground (arith, bit_and-high_bits (target / 256) (omega arith))) in
    let back : bit_and high 0x3F * 256 + low ≡ target = omega (arith, bit_and-low_bits high) in
    rw
      (
        at,
        inside,
        qname_turn,
        ◌>>◌,
        ◌>>=◌,
        fail_if,
        byte_at-append pre high (low ∷ post),
        ptr,
        follow_pointer,
        whole,
        allowed,
        second_byte pre high low post,
        back,
      )
      refl

-- The loop, on whatever fuel, reads the labels spelled and ends behind their own bytes, unless the
-- fuel is too short.
abbrev pub Arrives : NameState → (end : ℕ) → List Text → Result NameState → Type 0
Arrives s end labels m =
    (m ≡ stuck)
    ⊎ ((s' : NameState) × (m ≡ ok s')
        × (s'.qname ≡ s.qname ++ dotted labels)
        × (s'.end_offset ≡ (if s.jumped then s.end_offset else end)))

Arrives-label :
    (s : NameState) (name : Text) (end : ℕ) (labels : List Text) (m : Result NameState)
    → Arrives
        (record s {
          qname = s.qname ++ (name ++ (dot ∷ []));
          current = s.current + 1 + length name;
        })
        end
        labels
        m
    → Arrives s end (name ∷ labels) m
unfolding dotted
Arrives-label s name end labels m (inl e) = inl e
Arrives-label s name end labels m (inr (s', e, q, o)) =
    inr (s', e, q ∙ append_assoc s.qname (name ++ (dot ∷ [])) (dotted labels), o)

pub loop-Spelled :
    (buf : List ℕ) (fuel : ℕ) {depth at end : ℕ} {labels : List Text} (s : NameState)
    → Spelled buf depth at end labels
    → s.current ≡ at
    → s.jumps + depth ≤ 64
    → Arrives s end labels (qname_loop fuel buf s)
unfolding qname_loop finish dotted
loop-Spelled buf zero s spelled here few = inl refl
loop-Spelled buf (suc fuel) s (root pre post e at end) here few =
    let turn : qname_turn buf s ≡ ok (done (finish s)) =
      ap (λ b. qname_turn b s) e ∙ root_turn pre post s (here ∙ at) in
    rw (turn, ◌>>=◌) (inr (finish s, refl, sym (append-nil s.qname), ground arith))
loop-Spelled buf (suc fuel) s (label pre name post e at fine rest) here few =
    let s1 = record s {
      qname = s.qname ++ (name ++ (dot ∷ []));
      current = s.current + 1 + length name;
    } in
    let turn : qname_turn buf s ≡ ok (again s1) =
      ap (λ b. qname_turn b s) e ∙ label_turn pre name post s fine (here ∙ at) in
    rw (turn, ◌>>=◌) (Arrives-label s name _ _ _ (loop-Spelled buf fuel s1 rest (omega arith) few))
loop-Spelled buf (suc fuel) s (jump {end = stop} {target = target} pre post e at end near rest) here
      few =
    let s1 : NameState = record {
      qname = s.qname;
      current = target;
      jumped = true;
      end_offset = if s.jumped then s.end_offset else s.current + 2;
      jumps = s.jumps + 1;
    } in
    let turn : qname_turn buf s ≡ ok (again s1) =
      ap (λ b. qname_turn b s) e ∙ pointer_turn pre post target s (here ∙ at) (omega arith) near in
    let same : (if s.jumped then s.end_offset else s.current + 2)
        ≡ (if s.jumped then s.end_offset else stop) =
      ground arith in
    rw (turn, ◌>>=◌, ← same) (loop-Spelled buf fuel s1 rest refl (omega arith))
