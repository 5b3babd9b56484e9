-- ===== src/Prelude/Flags.antt =====
-- The one bit of the request's flags that the responses keep (RD), as arithmetic, from the digit
-- recursion that the native `bit_and` stands for.
use Prim.Native.Nat.{
  ℕ, zero, suc, ◌+◌, ◌*◌, ◌/◌, ◌%◌, ◌≤◌, ◌<◌, min, bit_and, digits, bit_and-bitwise,
}
use mathlib.Core.Path.{◌≡◌, refl, sym, ◌∙◌}
use native.Mathlib.Omega.{arith}

-- The digits of `a` against those of `b`, on a count of `n` digits.
abbrev both : ℕ → ℕ → ℕ → ℕ
both n a b = digits (λ b'. zero) min n a b

-- Two counts of at least `a` give the same.
both-enough : (n k a b : ℕ) → a ≤ n → a ≤ k → both n a b ≡ both k a b
both-enough n k zero b h l = both-zero n b ∙ sym (both-zero k b)
  where
    both-zero : (m c : ℕ) → both m 0 c ≡ 0
    both-zero zero c = refl
    both-zero (suc m) c = refl
both-enough zero k (suc a) b h l = elim h [ ]
both-enough (suc n) zero (suc a) b h l = elim l [ ]
both-enough (suc n) (suc k) (suc a) b h l =
    omega (arith, both-enough n k (suc a / 2) (b / 2) (omega arith) (omega arith))

pub bit_and-halves : (a b : ℕ) → bit_and a b ≡ bit_and (a / 2) (b / 2) * 2 + min (a % 2) (b % 2)
bit_and-halves zero b = omega (arith, bit_and-bitwise 0 b, bit_and-bitwise 0 (b / 2))
bit_and-halves (suc a) b = omega (
  arith,
  bit_and-bitwise (suc a) b,
  bit_and-bitwise (suc a / 2) (b / 2),
  both-enough a (suc a / 2) (suc a / 2) (b / 2) (omega arith) (omega arith),
)

pub none_above : (n a : ℕ) → a ≤ n → bit_and a 0 ≡ 0
none_above n zero h = refl
none_above zero (suc a) h = elim h [ ]
none_above (suc n) (suc a) h =
    omega (arith, bit_and-halves (suc a) 0, none_above n (suc a / 2) (omega arith))

pub double_mask : (a m : ℕ) → bit_and a (m * 2) ≡ bit_and (a / 2) m * 2
double_mask a m =
    let half : m * 2 / 2 ≡ m = omega arith in
    let halves : bit_and a (m * 2) ≡ bit_and (a / 2) m * 2 + min (a % 2) (m * 2 % 2) =
      rw half at (bit_and-halves a (m * 2)) in
    omega arith

pub bit_and-flag_rd : (a : ℕ) → bit_and a 0x100 ≡ a / 256 % 2 * 256
bit_and-flag_rd a = omega (
  arith,
  double_mask a 128,
  double_mask (a / 2) 64,
  double_mask (a / 2 / 2) 32,
  double_mask (a / 2 / 2 / 2) 16,
  double_mask (a / 2 / 2 / 2 / 2) 8,
  double_mask (a / 2 / 2 / 2 / 2 / 2) 4,
  double_mask (a / 2 / 2 / 2 / 2 / 2 / 2) 2,
  double_mask (a / 2 / 2 / 2 / 2 / 2 / 2 / 2) 1,
  bit_and-halves (a / 2 / 2 / 2 / 2 / 2 / 2 / 2 / 2) 1,
  none_above (a / 2 / 2 / 2 / 2 / 2 / 2 / 2 / 2 / 2) (a / 2 / 2 / 2 / 2 / 2 / 2 / 2 / 2 / 2),
)

-- A length below 64 has none of the two high bits of a byte.
pub bit_and-label : (a : ℕ) → a < 64 → bit_and a 0xC0 ≡ 0
bit_and-label a h = omega (
  arith,
  double_mask a 96,
  double_mask (a / 2) 48,
  double_mask (a / 2 / 2) 24,
  double_mask (a / 2 / 2 / 2) 12,
  double_mask (a / 2 / 2 / 2 / 2) 6,
  double_mask (a / 2 / 2 / 2 / 2 / 2) 3,
  zero_and (a / 2 / 2 / 2 / 2 / 2 / 2) (omega arith),
)
  where
    zero_and : (b : ℕ) → b ≡ 0 → bit_and b 3 ≡ 0
    zero_and b e = rw e refl
