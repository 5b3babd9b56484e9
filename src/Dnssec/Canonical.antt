-- ===== src/Dnssec/Canonical.antt =====
-- The key tag of src/dnssec.rs against RFC 4034, Appendix B.
use mini_dns.Prelude.{
  ℕ, ◌+◌, ◌*◌, ◌/◌, ◌%◌, ◌^◌, ◌≤◌, ◌<◌, ◌≡◌, ◌∙◌, true, List, [], ◌∷◌, arith, length,
}
use mini_dns.Acl.Prefix.{AreBytes}
use mini_dns.Dnssec.{u32, accumulate, key_tag_from_rdata}

-- The sum of the 16-bit words of the data, the last one filled up with a zero byte.
abbrev pub word_sum : List ℕ → ℕ
word_sum [] = 0
word_sum (hi ∷ []) = hi * 256
word_sum (hi ∷ lo ∷ rest) = hi * 256 + lo + word_sum rest

word_sum_le : (rdata : List ℕ) → AreBytes rdata → word_sum rdata ≤ 65536 * length rdata
word_sum_le [] h = omega arith
word_sum_le (hi ∷ []) h = omega arith
word_sum_le (hi ∷ lo ∷ rest) h = omega (arith, word_sum_le rest h.1.1)

accumulate-word_sum :
    (ac : ℕ) (rdata : List ℕ)
    → AreBytes rdata
    → ac + 65536 * length rdata < 2 ^ 32
    → accumulate true ac rdata ≡ ac + word_sum rdata
unfolding accumulate
accumulate-word_sum ac [] h k = omega arith
accumulate-word_sum ac (hi ∷ []) h k = omega arith
accumulate-word_sum ac (hi ∷ lo ∷ rest) h k =
    let e : u32 (u32 (ac + hi * 256) + lo) ≡ ac + hi * 256 + lo = omega arith in
    rw e (accumulate-word_sum (ac + hi * 256 + lo) rest h.1.1 (omega arith) ∙ omega arith)

-- On data of any length that a record can have, the key tag is that of RFC 4034: the sum of the 16-bit
-- words, which never overflows the 32-bit accumulator, with its high half added to its low half.
pub key_tag_from_rdata-word_sum :
    (rdata : List ℕ)
    → AreBytes rdata
    → length rdata < 65536
    → key_tag_from_rdata rdata ≡ (word_sum rdata + word_sum rdata / 65536) % 65536
unfolding key_tag_from_rdata
key_tag_from_rdata-word_sum rdata h k =
    let e = accumulate-word_sum 0 rdata h (omega arith) in
    let small = word_sum_le rdata h in omega arith
