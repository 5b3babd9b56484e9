-- ===== src/Recursive/Labels.antt =====
-- The labels of the names in src/recursive.rs: what `minimized_qname` keeps of them, and how many
-- pieces `delegation_zone` leaves.
use mini_dns.Prelude.{
  ℕ, zero, suc, ◌+◌, ◌-◌, ◌≤◌, ◌<◌, ◌≡◌, refl, sym, ap, ◌∙◌, true, false, Option, none, some, List,
  [], ◌∷◌, arith, leb, ◌==◌, length, length-drop, drop, get_or, inl, inr, Bool-cases, leb→le, max,
}
use mathlib.Core.Path.{subst}
use mini_dns.Text.{Text, dot, is_empty, is_empty_iff, split_dot, join_dot}
use mini_dns.Text.Pieces.{
  pieces, pieces-nil, pieces-cons, pieces_pos, AreFree, IsFree, split_dot-AreFree,
  split_dot-join_dot,
}
use mini_dns.Recursive.Names.{nonempty, labels, after_dot, delegation_zone, minimized_qname}

abbrev pub AreLabels : List Text → Type 0
AreLabels [] = Unit
AreLabels (l ∷ ls) = (is_empty l ≡ false) × IsFree l × AreLabels ls

AreLabels-AreFree : (ls : List Text) → AreLabels ls → AreFree ls
AreLabels-AreFree [] h = tt
AreLabels-AreFree (l ∷ ls) h = (h.1, AreLabels-AreFree ls h.2)

nonempty-AreLabels : (ls : List Text) → AreFree ls → AreLabels (nonempty ls)
unfolding nonempty
nonempty-AreLabels [] h = tt
nonempty-AreLabels (l ∷ ls) h = elim (Bool-cases (is_empty l)) [
  | inl e ↦ rw e (nonempty-AreLabels ls h.1)
  | inr e ↦ rw e (e, h.0, nonempty-AreLabels ls h.1)
]

nonempty_id : (ls : List Text) → AreLabels ls → nonempty ls ≡ ls
unfolding nonempty
nonempty_id [] h = refl
nonempty_id (l ∷ ls) h = rw h.0 (ap (◌∷◌ l) (nonempty_id ls h.2))

pub labels-AreLabels : (name : Text) → AreLabels (labels name)
unfolding labels
labels-AreLabels name = nonempty-AreLabels (split_dot name) (split_dot-AreFree name)

-- A text of joined labels has these labels.
pub labels-join_dot :
    (l : Text) (ls : List Text) → AreLabels (l ∷ ls) → labels (join_dot (l ∷ ls)) ≡ l ∷ ls
unfolding labels
labels-join_dot l ls h =
    ap nonempty (split_dot-join_dot l ls (AreLabels-AreFree (l ∷ ls) h)) ∙ nonempty_id (l ∷ ls) h

pub drop-AreLabels : (n : ℕ) (ls : List Text) → AreLabels ls → AreLabels (drop n ls)
drop-AreLabels zero ls h = h
drop-AreLabels (suc n) [] h = tt
drop-AreLabels (suc n) (l ∷ ls) h = drop-AreLabels n ls h.2

-- The last `k` labels, written as the label of the code where `k` is one.
drop-last :
    (ls : List Text)
    → is_empty ls ≡ false
    → get_or ls (length ls - 1) [] ≡ join_dot (drop (length ls - 1) ls)
unfolding is_empty join_dot
drop-last [] h = cc
drop-last (l ∷ []) h = refl
drop-last (l ∷ m ∷ ms) h =
    let e : length (l ∷ m ∷ ms) - 1 ≡ suc (length (m ∷ ms) - 1) = omega arith in
    rw e (drop-last (m ∷ ms) refl)

drop_nonempty :
    (n : ℕ) (ls : List Text) → n < length ls → (l : Text) × (ms : List Text) × (drop n ls ≡ l ∷ ms)
drop_nonempty n [] h = absurd (omega arith)
drop_nonempty zero (l ∷ ls) h = (l, ls, refl)
drop_nonempty (suc n) (l ∷ ls) h = drop_nonempty n ls (omega arith)

labels-join_dot-drop :
    (n : ℕ) (ls : List Text)
    → AreLabels ls
    → n < length ls
    → labels (join_dot (drop n ls)) ≡ drop n ls
labels-join_dot-drop n ls h lt =
    let (l, ms, e) = drop_nonempty n ls lt in
    rw e (labels-join_dot l ms (subst AreLabels e (drop-AreLabels n ls h)))

drop_whole : (n : ℕ) (ls : List Text) → n ≡ 0 → drop n ls ≡ ls
drop_whole n ls e = rw e refl

labels_root : (zone : Text) → is_empty zone ≡ true → labels zone ≡ []
unfolding is_empty labels nonempty split_dot
labels_root [] h = refl
labels_root (c ∷ s) h = cc

is_empty-length : (ls : List Text) → is_empty ls ≡ false → 0 < length ls
unfolding is_empty
is_empty-length [] h = cc
is_empty-length (l ∷ ls) h = omega arith

-- The name to ask for has the last labels of the name in question, one more than the current zone
-- has, or all of them where that is more than there are. Empty labels count nowhere.
pub labels-minimized_qname :
    (name current_zone : Text)
    → labels (minimized_qname name current_zone)
      ≡ drop (length (labels name) - (length (labels current_zone) + 1)) (labels name)
unfolding minimized_qname
labels-minimized_qname name zone = elim (Bool-cases (is_empty (labels name))) [
  | inl none_left ↦
      let e = ap length ((is_empty_iff (labels name)).0 none_left) in
      rw (none_left, minimized_qname) (sym (drop_whole _ (labels name) (omega arith)))
  | inr some_left ↦ elim (Bool-cases (is_empty zone)) [
    | inl root ↦
        let k : length (labels zone) ≡ 0 = ap length (labels_root zone root) in
        let pos = is_empty-length (labels name) some_left in
        let n : length (labels name) - (length (labels zone) + 1) ≡ length (labels name) - 1 =
          omega arith in
        rw (n, some_left, root)
          (ap labels (drop-last (labels name) some_left)
            ∙ labels-join_dot-drop _ (labels name) (labels-AreLabels name) (omega arith))
    | inr below ↦ elim (Bool-cases (leb (length (labels name)) (length (labels zone) + 1))) [
      | inl all ↦
          rw (some_left, below, all)
            (sym (
              drop_whole _ (labels name)
                (omega (arith, leb→le (length (labels name)) (length (labels zone) + 1) all))))
      | inr few ↦
          let pos = is_empty-length (labels name) some_left in
          rw (some_left, below, few)
            (labels-join_dot-drop _ (labels name) (labels-AreLabels name) (omega arith))
    ]
  ]
]

pub length-nonempty_le : (ls : List Text) → length (nonempty ls) ≤ length ls
unfolding nonempty
length-nonempty_le [] = omega arith
length-nonempty_le (l ∷ ls) = ground (arith, length-nonempty_le ls)

pub length-labels_le : (name : Text) → length (labels name) ≤ pieces name
unfolding labels
length-labels_le name = length-nonempty_le (split_dot name)

abbrev OneLess : Text → Option Text → Type 0
OneLess s none = pieces s ≡ 1
OneLess s (some rest) = pieces s ≡ pieces rest + 1

after_dot-OneLess : (s : Text) → OneLess s (after_dot s)
unfolding after_dot
after_dot-OneLess [] = pieces-nil
after_dot-OneLess (c ∷ s) = elim (Bool-cases (c == dot)) [
  | inl here ↦ rw here (rw here at (pieces-cons c s))
  | inr other ↦ rw other (same (after_dot s) (rw other at (pieces-cons c s)) (after_dot-OneLess s))
]
  where
    same : (o : Option Text) → pieces (c ∷ s) ≡ pieces s → OneLess s o → OneLess (c ∷ s) o
    same none e h = e ∙ h
    same (some rest) e h = e ∙ h

-- The zone has one piece less than the name, and at least one.
pub pieces-delegation_zone : (name : Text) → pieces (delegation_zone name) ≡ max 1 (pieces name - 1)
unfolding delegation_zone
pieces-delegation_zone name = zone (after_dot name) (after_dot-OneLess name)
  where
    zone :
        (o : Option Text)
        → OneLess name o
        → pieces (elim o [ some rest ↦ rest | none ↦ name ]) ≡ max 1 (pieces name - 1)
    zone none h = omega arith
    zone (some rest) h = omega (arith, pieces_pos rest)

-- Below the whole name, what is asked for is the join of labels, so it holds no empty piece.
minimized_qname-join_dot :
    (name zone : Text)
    → length (labels zone) + 1 < length (labels name)
    → minimized_qname name zone
      ≡ join_dot (drop (length (labels name) - (length (labels zone) + 1)) (labels name))
unfolding minimized_qname
minimized_qname-join_dot name zone h =
    let some_left = has_labels (labels name) (omega arith) in
    elim (Bool-cases (is_empty zone)) [
      | inl root ↦
          let k : length (labels zone) ≡ 0 = ap length (labels_root zone root) in
          let n : length (labels name) - (length (labels zone) + 1) ≡ length (labels name) - 1 =
            omega arith in
          rw (n, some_left, root) (drop-last (labels name) some_left)
      | inr below ↦
          let few : leb (length (labels name)) (length (labels zone) + 1) ≡ false = ground arith in
          rw (some_left, below, few) refl
    ]
  where
    has_labels : (ls : List Text) → 0 < length ls → is_empty ls ≡ false
    has_labels [] lt = absurd (omega arith)
    has_labels (l ∷ ls) lt = unfold is_empty in refl

pub pieces-minimized_qname :
    (name zone : Text)
    → length (labels zone) + 1 < length (labels name)
    → pieces (minimized_qname name zone) ≡ length (labels zone) + 1
pieces-minimized_qname name zone h =
    let n = length (labels name) - (length (labels zone) + 1) in
    let (l, ms, e) = drop_nonempty n (labels name) (omega arith) in
    let free = AreLabels-AreFree _ (drop-AreLabels n (labels name) (labels-AreLabels name)) in
    let joined = split_dot-join_dot l ms (subst AreFree e free) in
    let q = minimized_qname-join_dot name zone h ∙ ap join_dot e in
    ap pieces q ∙ ap length (joined ∙ sym e) ∙ length-drop n (labels name) ∙ omega arith

pub delegation_zone_free : (s : Text) → pieces s ≡ 1 → delegation_zone s ≡ s
unfolding delegation_zone
delegation_zone_free s h = zone (after_dot s) (after_dot-OneLess s)
  where
    zone : (o : Option Text) → OneLess s o → (elim o [ some rest ↦ rest | none ↦ s ]) ≡ s
    zone none e = refl
    zone (some rest) e = absurd (omega (arith, pieces_pos rest))

-- A zone with all labels but one, or more, leaves the name as it is.
pub minimized_qname_whole :
    (name zone : Text)
    → 0 < length (labels zone)
    → length (labels name) ≤ length (labels zone) + 1
    → minimized_qname name zone ≡ name
unfolding minimized_qname
minimized_qname_whole name zone h k = elim (Bool-cases (is_empty (labels name))) [
  | inl none_left ↦ rw none_left refl
  | inr some_left ↦ elim (Bool-cases (is_empty zone)) [
    | inl root ↦ let e = ap (length {0}) (labels_root zone root) in absurd (omega arith)
    | inr below ↦
        let all : leb (length (labels name)) (length (labels zone) + 1) ≡ true = ground arith in
        rw (some_left, below, all) refl
  ]
]
