-- ===== src/Dns/Encoder/Names.antt =====
-- A name as `encode_name_uncompressed` of src/dns/encoder.rs writes it, against `parse_qname` of
-- src/dns/packet.rs.
use mini_dns.Prelude.{
  ℕ, zero, suc, ◌+◌, ◌≤◌, ◌<◌, ◌≡◌, refl, sym, ap, ◌∙◌, false, List, [], ◌∷◌, ◌++◌, arith, ltb, leb,
  ◌==◌, length, take, min, length-append,
}
use mini_dns.Prelude.Flags.{bit_and-label}
use mathlib.Core.List.{append-nil, append_assoc}
use mini_dns.Text.{Text, dot, is_empty, split_dot, join_dot, strip_dot, join_dot-split_dot}
use mini_dns.Text.Utf8.{IsAscii, from_utf8_lossy-IsAscii}
use mini_dns.Dns.Error.{Result, ok, ◌>>=◌, ◌>>◌, fail_if}
use mini_dns.Dns.Buffer.Append.{byte_at-append, slice_behind}
use mini_dns.Dns.Parse.Name.{
  NameState, again, done, is_pointer, take_label, finish, qname_turn, qname_loop, parse_qname,
  start_at, qname_fuel,
}
use mini_dns.Dns.Encoder.{label_bytes, all_label_bytes, uncompressed}

-- The labels that a message can hold.
abbrev pub IsLabel : Text → Type 0
IsLabel label = (0 < length label) × (length label < 64) × IsAscii label

abbrev pub AreLabels : List Text → Type 0
AreLabels [] = Unit
AreLabels (label ∷ labels) = IsLabel label × AreLabels labels

-- The labels, each with a dot behind it.
unfoldable pub dotted : List Text → Text
dotted [] = []
dotted (label ∷ labels) = (label ++ (dot ∷ [])) ++ dotted labels

is_pointer-label : (n : ℕ) → n < 64 → is_pointer n ≡ false
unfolding is_pointer
is_pointer-label n h = ground (arith, bit_and-label n h)

take-whole : (n : ℕ) (label : Text) → length label ≤ n → take n label ≡ label
take-whole zero [] h = refl
take-whole zero (c ∷ label) h = absurd (omega arith)
take-whole (suc n) [] h = refl
take-whole (suc n) (c ∷ label) h = ap (◌∷◌ c) (take-whole n label (omega arith))

pub label_bytes-IsLabel : (label : Text) → IsLabel label → label_bytes label ≡ length label ∷ label
unfolding label_bytes
label_bytes-IsLabel label h =
    let len : min (length label) 63 ≡ length label = omega (arith, h.1) in
    rw (len, take-whole 63 label (omega (arith, h.1))) refl

pub label_turn :
    (pre label more : List ℕ) (s : NameState)
    → IsLabel label
    → s.current ≡ length pre
    → qname_turn (pre ++ (length label ∷ (label ++ more))) s
      ≡ ok (
          again (record s {
            qname = s.qname ++ (label ++ (dot ∷ []));
            current = s.current + 1 + length label;
          }))
unfolding qname_turn take_label
label_turn pre label more s (some_byte, short, ascii) at =
    let buf = pre ++ (length label ∷ (label ++ more)) in
    let total : length buf ≡ length pre + suc (length label + length more) =
      omega (arith, length-append pre (length label ∷ (label ++ more)), length-append label more) in
    let inside : leb (length buf) (length pre) ≡ false = ground arith in
    let whole : ltb (length buf) (length pre + 1 + length label) ≡ false = ground arith in
    let more_labels : (length label == 0) ≡ false = ground arith in
    rw
      (
        at,
        inside,
        qname_turn,
        ◌>>◌,
        ◌>>=◌,
        fail_if,
        byte_at-append pre (length label) (label ++ more),
        is_pointer-label (length label) short,
        more_labels,
        take_label,
        whole,
        slice_behind pre (length label) label more,
        from_utf8_lossy-IsAscii label ascii,
      )
      refl

pub root_turn :
    (pre more : List ℕ) (s : NameState)
    → s.current ≡ length pre
    → qname_turn (pre ++ (0 ∷ more)) s ≡ ok (done (finish s))
unfolding qname_turn is_pointer
root_turn pre more s at =
    let inside : leb (length (pre ++ (0 ∷ more))) (length pre) ≡ false =
      ground (arith, length-append pre (0 ∷ more)) in
    rw (at, inside, qname_turn, ◌>>◌, ◌>>=◌, fail_if, byte_at-append pre 0 more) refl

-- The state in which the loop over a name ends.
abbrev Reads : NameState → ℕ → List Text → Result NameState → Type 0
Reads s start labels m =
    (s' : NameState) × (m ≡ ok s')
    × (s'.qname ≡ s.qname ++ dotted labels)
    × (s'.end_offset ≡ start + length (all_label_bytes labels))

loop-labels :
    (labels : List Text) (fuel : ℕ) (pre post : List ℕ) (s : NameState)
    → AreLabels labels
    → length labels < fuel
    → s.current ≡ length pre
    → s.jumped ≡ false
    → Reads s (length pre) labels (qname_loop fuel (pre ++ (all_label_bytes labels ++ post)) s)
unfolding qname_loop dotted all_label_bytes finish
loop-labels labels zero pre post s names h at direct = absurd (omega arith)
loop-labels [] (suc fuel) pre post s names h at direct =
    (finish s, rw (root_turn pre post s at, ◌>>=◌) refl, sym (append-nil s.qname), ground arith)
loop-labels (label ∷ labels) (suc fuel) pre post s (name, names) h at direct =
    let rest = all_label_bytes labels ++ post in
    let next = pre ++ (length label ∷ label) in
    let s1 = record s {
      qname = s.qname ++ (label ++ (dot ∷ []));
      current = s.current + 1 + length label;
    } in
    let count : length next ≡ length pre + suc (length label) =
      length-append pre (length label ∷ label) in
    let layout : pre ++ (all_label_bytes (label ∷ labels) ++ post)
        ≡ pre ++ (length label ∷ (label ++ rest)) =
      rw (label_bytes-IsLabel label name)
        (ap (λ b. pre ++ (length label ∷ b)) (append_assoc label (all_label_bytes labels) post)) in
    let split : pre ++ (length label ∷ (label ++ rest)) ≡ next ++ rest =
      sym (append_assoc pre (length label ∷ label) rest) in
    let (s', e, q, end_offset) =
      loop-labels labels fuel next post s1 names (omega arith) (omega arith) direct in
    let runs : qname_loop (suc fuel) (pre ++ (length label ∷ (label ++ rest))) s ≡ ok s' =
      rw (label_turn pre label rest s name at, ◌>>=◌) (ap (λ b. qname_loop fuel b s1) split ∙ e) in
    let size : length (label_bytes label ++ all_label_bytes labels)
        ≡ suc (length label) + length (all_label_bytes labels) =
      rw (label_bytes-IsLabel label name)
        (length-append (length label ∷ label) (all_label_bytes labels)) in
    (
      s',
      ap (λ b. qname_loop (suc fuel) b s) layout ∙ runs,
      q ∙ append_assoc s.qname (label ++ (dot ∷ [])) (dotted labels),
      omega (arith, end_offset, count, size),
    )

labels-shorter : (labels : List Text) → length labels < length (all_label_bytes labels)
unfolding all_label_bytes label_bytes
labels-shorter [] = omega arith
labels-shorter (label ∷ labels) =
    omega (arith, labels-shorter labels, length-append (take 63 label) (all_label_bytes labels))

dotted-join :
    (label : Text) (labels : List Text)
    → dotted (label ∷ labels) ≡ join_dot (label ∷ labels) ++ (dot ∷ [])
unfolding dotted join_dot
dotted-join label [] = append-nil (label ++ (dot ∷ []))
dotted-join label (l ∷ ls) =
    append_assoc label (dot ∷ []) (dotted (l ∷ ls))
    ∙ ap (λ s. label ++ (dot ∷ s)) (dotted-join l ls)
    ∙ sym (append_assoc label (dot ∷ join_dot (l ∷ ls)) (dot ∷ []))

strip_dot-snoc : (s : Text) → strip_dot (s ++ (dot ∷ [])) ≡ s
unfolding strip_dot
strip_dot-snoc [] = refl
strip_dot-snoc (c ∷ []) = refl
strip_dot-snoc (c ∷ d ∷ s) = ap (◌∷◌ c) (strip_dot-snoc (d ∷ s))

pub strip_dot-dotted : (labels : List Text) → strip_dot (dotted labels) ≡ join_dot labels
strip_dot-dotted [] = unfold strip_dot dotted join_dot in refl
strip_dot-dotted (label ∷ labels) =
    ap strip_dot (dotted-join label labels) ∙ strip_dot-snoc (join_dot (label ∷ labels))

parse_qname-labels :
    (all : List Text) (pre post : List ℕ)
    → AreLabels all
    → parse_qname (pre ++ (all_label_bytes all ++ post)) (length pre)
      ≡ ok (join_dot all, length pre + length (all_label_bytes all))
unfolding parse_qname
parse_qname-labels all pre post names =
    let buf = pre ++ (all_label_bytes all ++ post) in
    let room : length all ≤ length buf = omega (
      arith,
      labels-shorter all,
      length-append pre (all_label_bytes all ++ post),
      length-append (all_label_bytes all) post,
    ) in
    let (s', e, q, end_offset) =
      loop-labels all (qname_fuel buf) pre post (start_at (length pre)) names (omega arith) refl
        refl in
    let text : strip_dot s'.qname ≡ join_dot all = ap strip_dot q ∙ strip_dot-dotted all in
    rw (e, ◌>>=◌, text, end_offset) refl

-- The names that a message can hold: the root, or labels of 1 to 63 ASCII bytes.
abbrev pub IsName : Text → Type 0
IsName [] = Unit
IsName (c ∷ cs) = AreLabels (split_dot (c ∷ cs))

-- A name as the encoder writes it without compression parses back to the name, wherever it stands
-- in a message, and the parser goes on right behind it.
pub parse_qname-uncompressed :
    (name : Text) (pre post : List ℕ)
    → IsName name
    → parse_qname (pre ++ (uncompressed name ++ post)) (length pre)
      ≡ ok (name, length pre + length (uncompressed name))
unfolding uncompressed is_empty
parse_qname-uncompressed [] pre post h =
    unfold all_label_bytes join_dot in parse_qname-labels [] pre post tt
parse_qname-uncompressed (c ∷ cs) pre post h =
    parse_qname-labels (split_dot (c ∷ cs)) pre post h
    ∙ ap (λ n. ok (n, length pre + length (all_label_bytes (split_dot (c ∷ cs)))))
        (join_dot-split_dot (c ∷ cs))
