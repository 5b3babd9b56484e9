-- ===== src/Text/Utf8.antt =====
-- `String::from_utf8_lossy` (std): every maximal ill-formed part of the input becomes the bytes
-- of U+FFFD. Wire names and texts pass through it in dns/packet.rs.
use mini_dns.Prelude.{
  ℕ, ◌-◌, ◌<◌, ◌≡◌, refl, ◌&&◌, List, [], ◌∷◌, ◌++◌, arith, leb, ltb, ◌==◌, if◌then◌else◌,
}

-- A started sequence: the bytes read, how many are still needed, and the range of the next.
pub record Pending : Type 0 where
  pub bytes : List ℕ
  pub need : ℕ
  pub lo : ℕ
  pub hi : ℕ

abbrev pub idle : Pending
idle = record { bytes = []; need = 0; lo = 0; hi = 0 }

abbrev replacement : List ℕ
replacement = 0xEF ∷ 0xBF ∷ 0xBD ∷ []

abbrev await : ℕ → ℕ → ℕ → ℕ → List ℕ × Pending
await b need lo hi = ([], record { bytes = b ∷ []; need = need; lo = lo; hi = hi })

-- The first byte of a sequence.
lead : ℕ → List ℕ × Pending
lead b =
    if ltb b 0x80
    then (b ∷ [], idle)
    else if ltb b 0xC2
    then (replacement, idle)
    else if ltb b 0xE0
    then await b 1 0x80 0xBF
    else if b == 0xE0
    then await b 2 0xA0 0xBF
    else if b == 0xED
    then await b 2 0x80 0x9F
    else if ltb b 0xF0
    then await b 2 0x80 0xBF
    else if b == 0xF0
    then await b 3 0x90 0xBF
    else if ltb b 0xF4
    then await b 3 0x80 0xBF
    else if b == 0xF4
    then await b 3 0x80 0x8F
    else (replacement, idle)

-- A byte outside the range ends the sequence, and starts the next.
restart : List ℕ × Pending → List ℕ × Pending
restart (out, p) = (replacement ++ out, p)

take_byte : Pending → ℕ → List ℕ × Pending
unfolding lead restart
take_byte p b =
    if p.need == 0
    then lead b
    else if leb p.lo b && leb b p.hi
    then (if p.need == 1
        then (p.bytes ++ (b ∷ []), idle)
        else ([], record { bytes = p.bytes ++ (b ∷ []); need = p.need - 1; lo = 0x80; hi = 0xBF }))
    else restart (lead b)

lossy_from : Pending → List ℕ → List ℕ
unfolding take_byte
lossy_from p [] = if p.need == 0 then [] else replacement
lossy_from p (b ∷ bs) = (take_byte p b).0 ++ lossy_from (take_byte p b).1 bs

unfoldable pub from_utf8_lossy : List ℕ → List ℕ
unfolding lossy_from
from_utf8_lossy bs = lossy_from idle bs

abbrev pub IsAscii : List ℕ → Type 0
IsAscii [] = Unit
IsAscii (b ∷ bs) = (b < 128) × IsAscii bs

-- ASCII passes through unchanged.
pub from_utf8_lossy-IsAscii : (bs : List ℕ) → IsAscii bs → from_utf8_lossy bs ≡ bs
unfolding from_utf8_lossy
from_utf8_lossy-IsAscii [] h = refl
from_utf8_lossy-IsAscii (b ∷ bs) h = ground (arith, from_utf8_lossy-IsAscii bs h.1)

euro : from_utf8_lossy (0xE2 ∷ 0x82 ∷ 0xAC ∷ 0x41 ∷ []) ≡ 0xE2 ∷ 0x82 ∷ 0xAC ∷ 0x41 ∷ []
unfolding from_utf8_lossy
euro = refl

-- Two bytes of a cut sequence are one replacement.
cut : from_utf8_lossy (0xE2 ∷ 0x82 ∷ 0x41 ∷ 0xFF ∷ []) ≡ replacement ++ (0x41 ∷ replacement)
unfolding from_utf8_lossy
cut = refl
