-- ===== src/Acl/Prefix.antt =====
-- `matches_v4` and `matches_v6` of src/acl.rs compare the first `prefix` bits of two addresses.
use mini_dns.Prelude.{
  ℕ, zero, suc, ◌+◌, ◌*◌, ◌/◌, ◌%◌, ◌≤◌, ◌<◌, ◌≡◌, ◌≢◌, refl, sym, ◌∙◌, ◌↔◌, Bool, true, false,
  Option, some, List, [], ◌∷◌, arith, ◌==◌, length, take, take-append_le, bit_and,
}
use native.Mathlib.Decide.{ℕ_discrete}
use mini_dns.Text.{text_eq}
use mini_dns.Acl.{mask, match_byte, match_at, matches}
use mini_dns.Acl.Bits.{bits, bits_of, bits-injective, mask_iff}

abbrev pub AreBytes : List ℕ → Type 0
AreBytes [] = Unit
AreBytes (b ∷ bs) = (b < 256) × AreBytes bs

-- The first `n` bits of the addresses are the same.
abbrev pub SameBits : ℕ → List ℕ → List ℕ → Type 0
SameBits n ip net = take n (bits_of ip) ≡ take n (bits_of net)

-- The test is decided, and holds exactly where `P` does.
abbrev pub Decides : Option Bool → Type 0 → Type 0
Decides o P = (answer : Bool) × (o ≡ some answer) × ((answer ≡ true) ↔ P)

abbrev eight_more : ℕ → ℕ
eight_more n = suc (suc (suc (suc (suc (suc (suc (suc n)))))))

same_head :
    (n x y : ℕ) (ip net : List ℕ)
    → x < 256
    → y < 256
    → SameBits (eight_more n) (x ∷ ip) (y ∷ net)
    → (x ≡ y) × SameBits n ip net
same_head n x y ip net h k e = ground (arith, bits-injective x y h k)

match_at_same :
    (full rem x : ℕ) (net ip : List ℕ)
    → match_at (suc full) rem (x ∷ net) (x ∷ ip) ≡ match_at full rem net ip
unfolding match_at text_eq
match_at_same full rem x net ip = ground arith

match_at_other :
    (full rem x y : ℕ) (net ip : List ℕ)
    → x ≢ y
    → full ≤ length net
    → full ≤ length ip
    → match_at (suc full) rem (y ∷ net) (x ∷ ip) ≡ some false
unfolding match_at text_eq
match_at_other full rem x y net ip h k l = ground arith

-- With no whole octet left, the masked octet decides.
last_octet :
    (rem : ℕ) (net ip : List ℕ)
    → rem < 8
    → length net ≡ length ip
    → rem ≤ 8 * length ip
    → AreBytes net
    → AreBytes ip
    → Decides (match_at 0 rem net ip) (SameBits rem ip net)
unfolding match_at text_eq match_byte
last_octet zero net ip h l fits bn bi = (true, ground arith, ((λ _. refl), (λ _. refl)))
last_octet (suc rem) [] ip h l fits bn bi = absurd (omega arith)
last_octet (suc rem) (y ∷ net) [] h l fits bn bi = absurd (omega arith)
last_octet (suc rem) (y ∷ net) (x ∷ ip) h l fits bn bi =
    let ex = take-append_le (suc rem) (bits x) (bits_of ip) (omega arith) in
    let ey = take-append_le (suc rem) (bits y) (bits_of net) (omega arith) in
    let iff = mask_iff (suc rem) x y (omega arith) h bi.0 bn.0 in
    (
      bit_and x (mask (suc rem)) == bit_and y (mask (suc rem)),
      ground arith,
      (λ t. ex ∙ iff.0 t ∙ sym ey, λ s. iff.1 (sym ex ∙ s ∙ ey)),
    )

match_at-Decides :
    (full rem : ℕ) (net ip : List ℕ)
    → rem < 8
    → length net ≡ length ip
    → 8 * full + rem ≤ 8 * length ip
    → AreBytes net
    → AreBytes ip
    → Decides (match_at full rem net ip) (SameBits (8 * full + rem) ip net)
match_at-Decides zero rem net ip h l fits bn bi =
    let e : 8 * 0 + rem ≡ rem = omega arith in rw e (last_octet rem net ip h l (omega arith) bn bi)
match_at-Decides (suc full) rem [] ip h l fits bn bi = absurd (omega arith)
match_at-Decides (suc full) rem (y ∷ net) [] h l fits bn bi = absurd (omega arith)
match_at-Decides (suc full) rem (y ∷ net) (x ∷ ip) h l fits bn bi =
    let n : 8 * suc full + rem ≡ eight_more (8 * full + rem) = omega arith in
    let (answer, e, iff) =
      match_at-Decides full rem net ip h (omega arith) (omega arith) bn.1 bi.1 in
    rw n (elim (ℕ_discrete x y) [
      | yes same ↦ (
        answer,
        rw (← same) (match_at_same full rem x net ip ∙ e),
        ((λ t. rw (same, iff.0 t)), (λ s. iff.1 (same_head _ x y ip net bi.0 bn.0 s).1)),
      )
      | no other ↦ (
        false,
        match_at_other full rem x y net ip other (omega arith) (omega arith),
        ((λ t. cc), (λ s. absurd (other (same_head _ x y ip net bi.0 bn.0 s).0))),
      )
    ])

-- For an address of as many octets as the network and a prefix of at most all its bits, the test
-- of the entry is decided without a panic, and holds exactly when the first `prefix` bits of the
-- address are those of the network.
pub matches-Decides :
    (net ip : List ℕ) (prefix : ℕ)
    → length net ≡ length ip
    → prefix ≤ 8 * length ip
    → AreBytes net
    → AreBytes ip
    → Decides (matches net prefix ip) (SameBits prefix ip net)
unfolding matches
matches-Decides net ip prefix l fits bn bi =
    let e : 8 * (prefix / 8) + prefix % 8 ≡ prefix = omega arith in
    rw e at (match_at-Decides (prefix / 8) (prefix % 8) net ip (omega arith) l (omega arith) bn bi)
