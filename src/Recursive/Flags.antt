-- ===== src/Recursive/Flags.antt =====
-- The flags that src/recursive.rs gives a relayed response: AA cleared and RA set, the code kept.
use Prim.Native.Nat.{ℕ, zero, suc, ◌+◌, ◌*◌, ◌/◌, ◌%◌, ◌≤◌, min, max, bit_and, bit_or}
use mathlib.Core.Path.{◌≡◌, refl}
use native.Mathlib.Omega.{arith}
use mini_dns.Prelude.Flags.{bit_and-halves, double_mask, none_above}
use mini_dns.Prelude.Pointer.{bit_or-halves}

and_odd : (a m : ℕ) → bit_and a (m * 2 + 1) ≡ bit_and (a / 2) m * 2 + a % 2
and_odd a m =
    let half : (m * 2 + 1) / 2 ≡ m = omega arith in
    let halves : bit_and a (m * 2 + 1) ≡ bit_and (a / 2) m * 2 + min (a % 2) ((m * 2 + 1) % 2) =
      rw half at (bit_and-halves a (m * 2 + 1)) in
    omega arith

or_even : (a m : ℕ) → bit_or a (m * 2) ≡ bit_or (a / 2) m * 2 + a % 2
or_even a m =
    let half : m * 2 / 2 ≡ m = omega arith in
    let halves : bit_or a (m * 2) ≡ bit_or (a / 2) m * 2 + max (a % 2) (m * 2 % 2) =
      rw half at (bit_or-halves a (m * 2)) in
    omega arith

or_odd : (a m : ℕ) → bit_or a (m * 2 + 1) ≡ bit_or (a / 2) m * 2 + 1
or_odd a m =
    let half : (m * 2 + 1) / 2 ≡ m = omega arith in
    let halves : bit_or a (m * 2 + 1) ≡ bit_or (a / 2) m * 2 + max (a % 2) ((m * 2 + 1) % 2) =
      rw half at (bit_or-halves a (m * 2 + 1)) in
    omega arith

or_nothing : (n a : ℕ) → a ≤ n → bit_or a 0 ≡ a
or_nothing n zero h = refl
or_nothing zero (suc a) h = elim h [ ]
or_nothing (suc n) (suc a) h =
    omega (arith, bit_or-halves (suc a) 0, or_nothing n (suc a / 2) (omega arith))

-- `&= !0x0400` leaves bit 10 empty, and the four bits of the response code as they are.
cleared : (f : ℕ) → bit_and f 0xFBFF / 1024 % 2 ≡ 0
cleared f = omega (
  arith,
  and_odd f 32255,
  and_odd (f / 2) 16127,
  and_odd (f / 2 / 2) 8063,
  and_odd (f / 2 / 2 / 2) 4031,
  and_odd (f / 2 / 2 / 2 / 2) 2015,
  and_odd (f / 2 / 2 / 2 / 2 / 2) 1007,
  and_odd (f / 2 / 2 / 2 / 2 / 2 / 2) 503,
  and_odd (f / 2 / 2 / 2 / 2 / 2 / 2 / 2) 251,
  and_odd (f / 2 / 2 / 2 / 2 / 2 / 2 / 2 / 2) 125,
  and_odd (f / 2 / 2 / 2 / 2 / 2 / 2 / 2 / 2 / 2) 62,
  double_mask (f / 2 / 2 / 2 / 2 / 2 / 2 / 2 / 2 / 2 / 2) 31,
)

kept : (f : ℕ) → bit_and f 0xFBFF % 16 ≡ f % 16
kept f = omega (
  arith,
  and_odd f 32255,
  and_odd (f / 2) 16127,
  and_odd (f / 2 / 2) 8063,
  and_odd (f / 2 / 2 / 2) 4031,
)

-- `|= 0x0080` sets bit 7 and no other.
set_ra :
    (g : ℕ)
    → (bit_or g 0x80 / 256 ≡ g / 256)
      × (bit_or g 0x80 / 128 % 2 ≡ 1)
      × (bit_or g 0x80 % 16 ≡ g % 16)
set_ra g = omega (
  arith,
  or_even g 64,
  or_even (g / 2) 32,
  or_even (g / 2 / 2) 16,
  or_even (g / 2 / 2 / 2) 8,
  or_even (g / 2 / 2 / 2 / 2) 4,
  or_even (g / 2 / 2 / 2 / 2 / 2) 2,
  or_even (g / 2 / 2 / 2 / 2 / 2 / 2) 1,
  or_odd (g / 2 / 2 / 2 / 2 / 2 / 2 / 2) 0,
  or_nothing (g / 2 / 2 / 2 / 2 / 2 / 2 / 2 / 2) (g / 2 / 2 / 2 / 2 / 2 / 2 / 2 / 2) (omega arith),
)

bit_and-flag_aa : (a : ℕ) → bit_and a 0x400 ≡ a / 1024 % 2 * 1024
bit_and-flag_aa a = omega (
  arith,
  double_mask a 512,
  double_mask (a / 2) 256,
  double_mask (a / 2 / 2) 128,
  double_mask (a / 2 / 2 / 2) 64,
  double_mask (a / 2 / 2 / 2 / 2) 32,
  double_mask (a / 2 / 2 / 2 / 2 / 2) 16,
  double_mask (a / 2 / 2 / 2 / 2 / 2 / 2) 8,
  double_mask (a / 2 / 2 / 2 / 2 / 2 / 2 / 2) 4,
  double_mask (a / 2 / 2 / 2 / 2 / 2 / 2 / 2 / 2) 2,
  double_mask (a / 2 / 2 / 2 / 2 / 2 / 2 / 2 / 2 / 2) 1,
  bit_and-halves (a / 2 / 2 / 2 / 2 / 2 / 2 / 2 / 2 / 2 / 2) 1,
  none_above (a / 2 / 2 / 2 / 2 / 2 / 2 / 2 / 2 / 2 / 2 / 2)
      (a / 2 / 2 / 2 / 2 / 2 / 2 / 2 / 2 / 2 / 2 / 2) (omega arith),
)

bit_and-flag_ra : (a : ℕ) → bit_and a 0x80 ≡ a / 128 % 2 * 128
bit_and-flag_ra a = omega (
  arith,
  double_mask a 64,
  double_mask (a / 2) 32,
  double_mask (a / 2 / 2) 16,
  double_mask (a / 2 / 2 / 2) 8,
  double_mask (a / 2 / 2 / 2 / 2) 4,
  double_mask (a / 2 / 2 / 2 / 2 / 2) 2,
  double_mask (a / 2 / 2 / 2 / 2 / 2 / 2) 1,
  bit_and-halves (a / 2 / 2 / 2 / 2 / 2 / 2 / 2) 1,
  none_above (a / 2 / 2 / 2 / 2 / 2 / 2 / 2 / 2) (a / 2 / 2 / 2 / 2 / 2 / 2 / 2 / 2) (omega arith),
)

bit_and-rcode : (a : ℕ) → bit_and a 0x0F ≡ a % 16
bit_and-rcode a = omega (
  arith,
  and_odd a 7,
  and_odd (a / 2) 3,
  and_odd (a / 2 / 2) 1,
  and_odd (a / 2 / 2 / 2) 0,
  none_above (a / 2 / 2 / 2 / 2) (a / 2 / 2 / 2 / 2) (omega arith),
)

abbrev pub relayed : ℕ → ℕ
relayed f = bit_or (bit_and f 0xFBFF) 0x0080

pub bit_and-relayed :
    (f : ℕ)
    → (bit_and (relayed f) 0x0400 ≡ 0)
      × (bit_and (relayed f) 0x0080 ≡ 0x0080)
      × (bit_and (relayed f) 0x000F ≡ bit_and f 0x000F)
bit_and-relayed f = omega (
  arith,
  cleared f,
  kept f,
  set_ra (bit_and f 0xFBFF),
  bit_and-flag_aa (relayed f),
  bit_and-flag_ra (relayed f),
  bit_and-rcode (relayed f),
  bit_and-rcode f,
)
