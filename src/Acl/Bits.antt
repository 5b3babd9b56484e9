-- ===== src/Acl/Bits.antt =====
-- The bits of an octet, most significant first, and what the mask of src/acl.rs keeps of them.
use mini_dns.Prelude.{
  ℕ, zero, suc, ◌-◌, ◌*◌, ◌/◌, ◌%◌, ◌^◌, ◌<◌, ◌≡◌, refl, ◌↔◌, Bool, true, ◌&&◌, List, [], ◌∷◌, ◌++◌,
  arith, ◌==◌, ==_iff, take, bit_and,
}
use mini_dns.Acl.{mask}

abbrev pub bits : ℕ → List ℕ
bits b =
    b / 128 ∷ b / 64 % 2 ∷ b / 32 % 2 ∷ b / 16 % 2 ∷ b / 8 % 2 ∷ b / 4 % 2 ∷ b / 2 % 2 ∷ b % 2 ∷ []

abbrev pub bits_of : List ℕ → List ℕ
bits_of [] = []
bits_of (b ∷ bs) = bits b ++ bits_of bs

all_below : ℕ → (ℕ → Bool) → Bool
all_below zero p = true
all_below (suc n) p = p n && all_below n p

all_below-lt : (n : ℕ) (p : ℕ → Bool) (x : ℕ) → all_below n p ≡ true → x < n → p x ≡ true
unfolding all_below
all_below-lt zero p x h lt = absurd (omega arith)
all_below-lt (suc n) p x h lt = ground (arith, all_below-lt n p x)

abbrev top_bits_agree : ℕ → ℕ → Bool
top_bits_agree r b = bit_and b (mask r) == b / 2 ^ (8 - r) * 2 ^ (8 - r)

top_bits_table : all_below 8 (λ r. all_below 256 (top_bits_agree r)) ≡ true
unfolding all_below
top_bits_table = refl

-- The mask keeps the first `r` bits of an octet and clears the others.
top_bits : (r b : ℕ) → r < 8 → b < 256 → bit_and b (mask r) ≡ b / 2 ^ (8 - r) * 2 ^ (8 - r)
top_bits r b h k = (==_iff _ _).0 (
    all_below-lt 256 (top_bits_agree r) b
      (all_below-lt 8 (λ r'. all_below 256 (top_bits_agree r')) r top_bits_table h) k)

pub bits-injective : (x y : ℕ) → x < 256 → y < 256 → bits x ≡ bits y → x ≡ y
bits-injective x y h k e = ground arith

-- Two octets agree under the mask exactly when their first `r` bits agree.
pub mask_iff :
    (r x y : ℕ)
    → 0 < r
    → r < 8
    → x < 256
    → y < 256
    → ((bit_and x (mask r) == bit_and y (mask r)) ≡ true) ↔ (take r (bits x) ≡ take r (bits y))
mask_iff (suc zero) x y p q h k = ground (arith, top_bits 1 x q h, top_bits 1 y q k)
mask_iff (suc (suc zero)) x y p q h k = ground (arith, top_bits 2 x q h, top_bits 2 y q k)
mask_iff (suc (suc (suc zero))) x y p q h k = ground (arith, top_bits 3 x q h, top_bits 3 y q k)
mask_iff (suc (suc (suc (suc zero)))) x y p q h k =
    ground (arith, top_bits 4 x q h, top_bits 4 y q k)
mask_iff (suc (suc (suc (suc (suc zero))))) x y p q h k =
    ground (arith, top_bits 5 x q h, top_bits 5 y q k)
mask_iff (suc (suc (suc (suc (suc (suc zero)))))) x y p q h k =
    ground (arith, top_bits 6 x q h, top_bits 6 y q k)
mask_iff (suc (suc (suc (suc (suc (suc (suc zero))))))) x y p q h k =
    ground (arith, top_bits 7 x q h, top_bits 7 y q k)
mask_iff zero x y p q h k = absurd (omega arith)
mask_iff (suc (suc (suc (suc (suc (suc (suc (suc r)))))))) x y p q h k = absurd (omega arith)
