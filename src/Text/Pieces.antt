-- ===== src/Text/Pieces.antt =====
-- `split('.')` and `join(".")` in src/recursive.rs: the pieces of a text hold no dot, and joining and
-- splitting such pieces gives them back.
use mini_dns.Prelude.{
  ℕ, suc, ◌+◌, ◌≤◌, ◌≡◌, refl, ap, ◌∙◌, false, List, [], ◌∷◌, ◌++◌, arith, ◌==◌, if◌then◌else◌,
  length, inl, inr, Bool-cases,
}
use mathlib.Core.Path.{subst}
use mini_dns.Text.{Text, dot, split_dot, join_dot, split_dot-cons, cons_head}

abbrev pub IsFree : Text → Type 0
IsFree [] = Unit
IsFree (c ∷ s) = ((c == dot) ≡ false) × IsFree s

abbrev pub AreFree : List Text → Type 0
AreFree [] = Unit
AreFree (l ∷ ls) = IsFree l × AreFree ls

pub split_dot-AreFree : (s : Text) → AreFree (split_dot s)
unfolding split_dot cons_head
split_dot-AreFree [] = (tt, tt)
split_dot-AreFree (c ∷ s) =
    let (l, ls, e) = split_dot-cons s in
    let h : AreFree (l ∷ ls) = subst AreFree e (split_dot-AreFree s) in
    elim (Bool-cases (c == dot)) [
      | inl here ↦ rw (here, split_dot, e) (tt, h)
      | inr other ↦ rw (other, split_dot, e) ((other, h.0), h.1)
    ]

split_dot-append : (l s : Text) → IsFree l → split_dot (l ++ (dot ∷ s)) ≡ l ∷ split_dot s
unfolding split_dot cons_head
split_dot-append [] s h = refl
split_dot-append (c ∷ l) s h = rw (h.0, split_dot-append l s h.1) refl

split_dot_free : (l : Text) → IsFree l → split_dot l ≡ l ∷ []
unfolding split_dot cons_head
split_dot_free [] h = refl
split_dot_free (c ∷ l) h = rw (h.0, split_dot_free l h.1) refl

pub split_dot-join_dot :
    (l : Text) (ls : List Text) → AreFree (l ∷ ls) → split_dot (join_dot (l ∷ ls)) ≡ l ∷ ls
unfolding join_dot
split_dot-join_dot l [] h = split_dot_free l h.0
split_dot-join_dot l (m ∷ ms) h =
    split_dot-append l (join_dot (m ∷ ms)) h.0 ∙ ap (◌∷◌ l) (split_dot-join_dot m ms h.1)

-- The number of pieces between the dots.
abbrev pub pieces : Text → ℕ
pieces s = length (split_dot s)

pub pieces-nil : pieces [] ≡ 1
unfolding split_dot
pieces-nil = refl

pub pieces-cons :
    (c : ℕ) (s : Text) → pieces (c ∷ s) ≡ (if c == dot then pieces s + 1 else pieces s)
unfolding split_dot cons_head
pieces-cons c s =
    let (l, ls, e) = split_dot-cons s in
    let n : pieces s ≡ length ls + 1 = ap length e ∙ add_one_length ls in
    elim (Bool-cases (c == dot)) [
      | inl here ↦ rw here (omega arith)
      | inr other ↦ rw (other, n, split_dot, e) (omega arith)
    ]
  where
    add_one_length : (ls : List Text) → suc (length ls) ≡ length ls + 1
    add_one_length ls = omega arith

pub pieces_pos : (s : Text) → 1 ≤ pieces s
pieces_pos s = let (l, ls, e) = split_dot-cons s in rw e (omega arith)
