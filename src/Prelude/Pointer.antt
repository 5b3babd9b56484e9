-- ===== src/Prelude/Pointer.antt =====
-- The bytes of a compression pointer: two high bits before an offset of 14 bits.
use Prim.Native.Nat.{
  ℕ, zero, suc, ◌+◌, ◌*◌, ◌/◌, ◌%◌, ◌≤◌, ◌<◌, max, bit_and, bit_or, digits, bit_or-bitwise,
}
use mathlib.Core.Path.{◌≡◌, refl, sym, ◌∙◌}
use native.Mathlib.Omega.{arith}
use mini_dns.Prelude.Flags.{double_mask, bit_and-halves, none_above}

abbrev either : ℕ → ℕ → ℕ → ℕ
either n a b = digits (λ b'. b') max n a b

either-zero : (m c : ℕ) → either m 0 c ≡ c
either-zero zero c = refl
either-zero (suc m) c = refl

either-enough : (n k a b : ℕ) → a ≤ n → a ≤ k → either n a b ≡ either k a b
either-enough n k zero b h l = either-zero n b ∙ sym (either-zero k b)
either-enough zero k (suc a) b h l = elim h [ ]
either-enough (suc n) zero (suc a) b h l = elim l [ ]
either-enough (suc n) (suc k) (suc a) b h l =
    omega (arith, either-enough n k (suc a / 2) (b / 2) (omega arith) (omega arith))

pub bit_or-halves : (a b : ℕ) → bit_or a b ≡ bit_or (a / 2) (b / 2) * 2 + max (a % 2) (b % 2)
bit_or-halves zero b = omega (arith, bit_or-bitwise 0 b, bit_or-bitwise 0 (b / 2))
bit_or-halves (suc a) b = omega (
  arith,
  bit_or-bitwise (suc a) b,
  bit_or-bitwise (suc a / 2) (b / 2),
  either-enough a (suc a / 2) (suc a / 2) (b / 2) (omega arith) (omega arith),
)

double_or : (m b : ℕ) → bit_or (m * 2) b ≡ bit_or m (b / 2) * 2 + b % 2
double_or m b =
    let half : m * 2 / 2 ≡ m = omega arith in
    let halves : bit_or (m * 2) b ≡ bit_or m (b / 2) * 2 + max (m * 2 % 2) (b % 2) =
      rw half at (bit_or-halves (m * 2) b) in
    omega arith

three_or : (b : ℕ) → b ≡ 0 → bit_or 3 b ≡ 3
three_or b e = rw e refl

pub bit_or-pointer : (t : ℕ) → t < 0x4000 → bit_or 0xC000 t ≡ 0xC000 + t
bit_or-pointer t h = omega (
  arith,
  double_or 0x6000 t,
  double_or 0x3000 (t / 2),
  double_or 0x1800 (t / 2 / 2),
  double_or 0xC00 (t / 2 / 2 / 2),
  double_or 0x600 (t / 2 / 2 / 2 / 2),
  double_or 0x300 (t / 2 / 2 / 2 / 2 / 2),
  double_or 0x180 (t / 2 / 2 / 2 / 2 / 2 / 2),
  double_or 0xC0 (t / 2 / 2 / 2 / 2 / 2 / 2 / 2),
  double_or 0x60 (t / 2 / 2 / 2 / 2 / 2 / 2 / 2 / 2),
  double_or 0x30 (t / 2 / 2 / 2 / 2 / 2 / 2 / 2 / 2 / 2),
  double_or 0x18 (t / 2 / 2 / 2 / 2 / 2 / 2 / 2 / 2 / 2 / 2),
  double_or 0xC (t / 2 / 2 / 2 / 2 / 2 / 2 / 2 / 2 / 2 / 2 / 2),
  double_or 6 (t / 2 / 2 / 2 / 2 / 2 / 2 / 2 / 2 / 2 / 2 / 2 / 2),
  double_or 3 (t / 2 / 2 / 2 / 2 / 2 / 2 / 2 / 2 / 2 / 2 / 2 / 2 / 2),
  three_or (t / 2 / 2 / 2 / 2 / 2 / 2 / 2 / 2 / 2 / 2 / 2 / 2 / 2 / 2) (omega arith),
)

three_and : (b : ℕ) → b ≡ 3 → bit_and b 3 ≡ 3
three_and b e = rw e refl

pub bit_and-high_bits : (x : ℕ) → x < 64 → bit_and (192 + x) 0xC0 ≡ 192
bit_and-high_bits x h = omega (
  arith,
  double_mask (192 + x) 96,
  double_mask ((192 + x) / 2) 48,
  double_mask ((192 + x) / 2 / 2) 24,
  double_mask ((192 + x) / 2 / 2 / 2) 12,
  double_mask ((192 + x) / 2 / 2 / 2 / 2) 6,
  double_mask ((192 + x) / 2 / 2 / 2 / 2 / 2) 3,
  three_and ((192 + x) / 2 / 2 / 2 / 2 / 2 / 2) (omega arith),
)

pub bit_and-low_bits : (a : ℕ) → bit_and a 0x3F ≡ a % 64
bit_and-low_bits a = omega (
  arith,
  bit_and-halves a 63,
  bit_and-halves (a / 2) 31,
  bit_and-halves (a / 2 / 2) 15,
  bit_and-halves (a / 2 / 2 / 2) 7,
  bit_and-halves (a / 2 / 2 / 2 / 2) 3,
  bit_and-halves (a / 2 / 2 / 2 / 2 / 2) 1,
  none_above (a / 2 / 2 / 2 / 2 / 2 / 2) (a / 2 / 2 / 2 / 2 / 2 / 2) (omega arith),
)
