-- ===== src/Dns/Error.antt =====
-- src/dns/error.rs, and what a call of the parser can come to. `panic` is a slice or an index out
-- of range, and `stuck` is no Rust value: a loop of the model ran out of fuel.
use mini_dns.Prelude.{ℕ, Bool, true, false, ◌≡◌, ◌≢◌, refl, arith}

-- The static labels of `Truncated { what }`.
pub data Field : Type 0 where
  header question record_header record_data soa_record : Field
  txt_character_string qname_label_length compression_pointer qname_label : Field

pub data DnsError : Type 0 where
  truncated : Field → DnsError
  invalid_rdata : ℕ → DnsError
  pointer_loop : DnsError

pub data Result {ℓ} (A : Type ℓ) : Type ℓ where
  ok : A → Result A
  err : DnsError → Result A
  panic : Result A
  stuck : Result A

infixl 5 ◌>>=◌ ◌>>◌
abbrev pub ◌>>=◌ {ℓ κ} : {A : Type ℓ} {B : Type κ} → Result A → (A → Result B) → Result B
ok a >>= f = f a
err e >>= f = err e
panic >>= f = panic
stuck >>= f = stuck

abbrev pub ◌>>◌ {ℓ} : {B : Type ℓ} → Result (Unit {0}) → Result B → Result B
m >> k = m >>= λ _. k

-- `if bad { return Err(e) }`.
abbrev pub fail_if : Bool → DnsError → Result (Unit {0})
fail_if true e = err e
fail_if false e = ok tt

-- The call returns, without a panic, and a result satisfies `P`.
abbrev pub Ensures {ℓ} : {A : Type ℓ} → (A → Type 0) → Result A → Type 0
Ensures P (ok x) = P x
Ensures P (err e) = Unit
Ensures P panic = ⊥
Ensures P stuck = ⊥

pub Ensures-bind {ℓ κ} :
    {A : Type ℓ} {B : Type κ} (P : A → Type 0) (Q : B → Type 0) (m : Result A) (f : A → Result B)
    → Ensures P m
    → ((x : A) → P x → Ensures Q (f x))
    → Ensures Q (m >>= f)
Ensures-bind P Q (ok x) f h k = k x h
Ensures-bind P Q (err e) f h k = tt
Ensures-bind P Q panic f h k = elim h [ ]
Ensures-bind P Q stuck f h k = elim h [ ]

-- After a check, the rest runs where the check passed.
pub Ensures-fail_if {ℓ} :
    {A : Type ℓ} (Q : A → Type 0) (b : Bool) (e : DnsError) (m : Result A)
    → (b ≡ false → Ensures Q m)
    → Ensures Q (fail_if b e >> m)
Ensures-fail_if Q true e m k = tt
Ensures-fail_if Q false e m k = k refl

pub Ensures-ok {ℓ} :
    {A : Type ℓ} (P : A → Type 0) (m : Result A) {x : A} → Ensures P m → m ≡ ok x → P x
Ensures-ok P (ok y) h e = ground arith
Ensures-ok P (err y) h e = cc
Ensures-ok P panic h e = elim h [ ]
Ensures-ok P stuck h e = elim h [ ]

pub Ensures-ne-stuck {ℓ} : {A : Type ℓ} (P : A → Type 0) (m : Result A) → Ensures P m → m ≢ stuck
Ensures-ne-stuck P (ok x) h e = cc
Ensures-ne-stuck P (err y) h e = cc
Ensures-ne-stuck P panic h e = h
Ensures-ne-stuck P stuck h e = h
