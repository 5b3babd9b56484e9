-- ===== src/Dns/Buffer.antt =====
-- Reading the wire buffer of src/dns/packet.rs: an index or a slice out of range panics.
pub mod Append
use mini_dns.Prelude.{
  ℕ, zero, suc, ◌+◌, ◌-◌, ◌*◌, ◌≤◌, ◌<◌, ◌≡◌, refl, Bool, true, false, ◌||◌, Option, none, some,
  List, [], ◌∷◌, ◌++◌, arith, ltb, if◌then◌else◌, length, get_elem?, take, drop, length-take,
  length-drop, ◌⊎◌, inl, inr,
}
use native.Mathlib.Decide.{dec_lt}
use mini_dns.Dns.Error.{Result, ok, panic, ◌>>=◌, Ensures}

-- `buf[i]`.
unfoldable pub byte_at : List ℕ → ℕ → Result ℕ
byte_at buf i = elim (get_elem? buf i) [ some b ↦ ok b | none ↦ panic ]

-- `buf[from..to]`.
unfoldable pub slice : List ℕ → ℕ → ℕ → Result (List ℕ)
slice buf from to =
    if ltb to from || ltb (length buf) to then panic else ok (take (to - from) (drop from buf))

-- `u16::from_be_bytes([buf[i], buf[i + 1]])`.
unfoldable pub read_u16 : List ℕ → ℕ → Result ℕ
read_u16 buf i = do high ← byte_at buf i; low ← byte_at buf (i + 1); ok (high * 256 + low)

-- `u32::from_be_bytes` of the four bytes from `i`.
unfoldable pub read_u32 : List ℕ → ℕ → Result ℕ
read_u32 buf i = do
  b0 ← byte_at buf i
  b1 ← byte_at buf (i + 1)
  b2 ← byte_at buf (i + 2)
  b3 ← byte_at buf (i + 3)
  ok (((b0 * 256 + b1) * 256 + b2) * 256 + b3)

get_elem?-some {ℓ} :
    {A : Type ℓ} (xs : List A) (i : ℕ) → i < length xs → (x : A) × (get_elem? xs i ≡ some x)
get_elem?-some [] i h = elim h [ ]
get_elem?-some (x ∷ xs) zero h = (x, refl)
get_elem?-some (x ∷ xs) (suc i) h = get_elem?-some xs i (omega arith)

pub byte_at-ok : (buf : List ℕ) (i : ℕ) → i < length buf → (b : ℕ) × (byte_at buf i ≡ ok b)
unfolding byte_at
byte_at-ok buf i h = let (b, e) = get_elem?-some buf i h in (b, rw (e, byte_at))

pub slice-ok :
    (buf : List ℕ) (from to : ℕ)
    → from ≤ to
    → to ≤ length buf
    → (part : List ℕ) × (slice buf from to ≡ ok part) × (length part ≡ to - from)
unfolding slice
slice-ok buf from to h k = (
  take (to - from) (drop from buf),
  ground arith,
  omega (arith, length-take (to - from) (drop from buf), length-drop from buf),
)

pub slice-panic : (buf : List ℕ) (from to : ℕ) → to < from → slice buf from to ≡ panic
unfolding slice
slice-panic buf from to h = ground arith

pub lt_of_slice-panic :
    (buf : List ℕ) (from to : ℕ) → slice buf from to ≡ panic → to ≤ length buf → to < from
unfolding slice
lt_of_slice-panic buf from to e h = ground arith

-- For a proof by cases: a read is in range, or it panics.
pub byte_at-cases : (buf : List ℕ) (i : ℕ) → (length buf ≤ i) ⊎ ((b : ℕ) × (byte_at buf i ≡ ok b))
unfolding byte_at
byte_at-cases buf i = elim (dec_lt i (length buf)) [
  | yes h ↦ inr (byte_at-ok buf i h)
  | no h ↦ inl (omega arith)
]

pub read_u16-ok : (buf : List ℕ) (i : ℕ) → i + 1 < length buf → (n : ℕ) × (read_u16 buf i ≡ ok n)
unfolding read_u16
read_u16-ok buf i h =
    let (b0, e0) = byte_at-ok buf i (omega arith) in
    let (b1, e1) = byte_at-ok buf (i + 1) h in (b0 * 256 + b1, rw (e0, e1))

pub read_u32-ok : (buf : List ℕ) (i : ℕ) → i + 3 < length buf → (n : ℕ) × (read_u32 buf i ≡ ok n)
unfolding read_u32
read_u32-ok buf i h =
    let (b0, e0) = byte_at-ok buf i (omega arith) in
    let (b1, e1) = byte_at-ok buf (i + 1) (omega arith) in
    let (b2, e2) = byte_at-ok buf (i + 2) (omega arith) in
    let (b3, e3) = byte_at-ok buf (i + 3) h in
    (((b0 * 256 + b1) * 256 + b2) * 256 + b3, rw (e0, e1, e2, e3))

-- A read in range goes on with its value.
module _ {ℓ} {A : Type ℓ} (Q : A → Type 0) (buf : List ℕ) where
  pub Ensures-byte_at :
      (i : ℕ) (f : ℕ → Result A)
      → i < length buf
      → ((b : ℕ) → Ensures Q (f b))
      → Ensures Q (byte_at buf i >>= f)
  Ensures-byte_at i f h k = let (b, e) = byte_at-ok buf i h in rw (e, Ensures, ◌>>=◌) (k b)

  pub Ensures-read_u16 :
      (i : ℕ) (f : ℕ → Result A)
      → i + 1 < length buf
      → ((b : ℕ) → Ensures Q (f b))
      → Ensures Q (read_u16 buf i >>= f)
  Ensures-read_u16 i f h k = let (b, e) = read_u16-ok buf i h in rw (e, Ensures, ◌>>=◌) (k b)

  pub Ensures-read_u32 :
      (i : ℕ) (f : ℕ → Result A)
      → i + 3 < length buf
      → ((b : ℕ) → Ensures Q (f b))
      → Ensures Q (read_u32 buf i >>= f)
  Ensures-read_u32 i f h k = let (b, e) = read_u32-ok buf i h in rw (e, Ensures, ◌>>=◌) (k b)

  pub Ensures-slice :
      (from to : ℕ) (f : List ℕ → Result A)
      → from ≤ to
      → to ≤ length buf
      → ((part : List ℕ) → length part ≡ to - from → Ensures Q (f part))
      → Ensures Q (slice buf from to >>= f)
  Ensures-slice from to f h h' k =
      let (part, e, l) = slice-ok buf from to h h' in rw (e, Ensures, ◌>>=◌) (k part l)
