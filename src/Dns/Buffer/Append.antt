-- ===== src/Dns/Buffer/Append.antt =====
-- Reading src/dns/packet.rs's buffer where it is made of known pieces.
use mini_dns.Prelude.{
  ℕ, ◌+◌, ◌-◌, ◌≡◌, refl, sym, ap, List, [], ◌∷◌, ◌++◌, arith, length, get_elem?, take, drop,
  length-append, some, ltb, false,
}
use mathlib.Core.List.{append_assoc}
use mini_dns.Dns.Error.{ok}
use mini_dns.Dns.Buffer.{byte_at, slice}

get_elem?-length_append :
    (pre : List ℕ) (b : ℕ) (post : List ℕ) → get_elem? (pre ++ (b ∷ post)) (length pre) ≡ some b
get_elem?-length_append [] b post = refl
get_elem?-length_append (x ∷ pre) b post = get_elem?-length_append pre b post

pub byte_at-append :
    (pre : List ℕ) (b : ℕ) (post : List ℕ) → byte_at (pre ++ (b ∷ post)) (length pre) ≡ ok b
unfolding byte_at
byte_at-append pre b post = rw (get_elem?-length_append pre b post, byte_at) refl

drop-length_append : (pre post : List ℕ) → drop (length pre) (pre ++ post) ≡ post
drop-length_append [] post = refl
drop-length_append (x ∷ pre) post = drop-length_append pre post

take-length_append : (part post : List ℕ) → take (length part) (part ++ post) ≡ part
take-length_append [] post = refl
take-length_append (x ∷ part) post = ap (◌∷◌ x) (take-length_append part post)

pub slice-append :
    (pre part post : List ℕ) (n m : ℕ)
    → n ≡ length pre
    → m ≡ length pre + length part
    → slice (pre ++ (part ++ post)) n m ≡ ok part
unfolding slice
slice-append pre part post n m e e' =
    let span : length pre + length part - length pre ≡ length part = omega arith in
    let low : ltb (length pre + length part) (length pre) ≡ false = ground arith in
    let high : ltb (length (pre ++ (part ++ post))) (length pre + length part) ≡ false =
      ground (arith, length-append pre (part ++ post), length-append part post) in
    rw
      (
        e,
        e',
        low,
        slice,
        high,
        span,
        drop-length_append pre (part ++ post),
        take-length_append part post,
      )
      refl

-- The bytes behind a length byte.
pub slice_behind :
    (pre : List ℕ) (b : ℕ) (part more : List ℕ)
    → slice (pre ++ (b ∷ (part ++ more))) (length pre + 1) (length pre + 1 + length part) ≡ ok part
slice_behind pre b part more =
    let n : length pre + 1 ≡ length (pre ++ (b ∷ [])) = omega (arith, length-append pre (b ∷ [])) in
    rw (sym (append_assoc pre (b ∷ []) (part ++ more))) (
      slice-append (pre ++ (b ∷ [])) part more (length pre + 1) (length pre + 1 + length part) n
        (omega arith))
