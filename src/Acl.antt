-- ===== src/Acl.antt =====
-- src/acl.rs: the access control list for zone transfers. `none` is a panic of a slice or an index.
pub mod Bits
pub mod Prefix
pub mod Allowed
pub mod Parse
use mini_dns.Prelude.{
  ℕ, ◌-◌, ◌*◌, ◌/◌, ◌%◌, ◌^◌, Bool, true, false, ◌||◌, not, Option, none, some, List, [], ◌∷◌, ltb,
  ◌==◌, if◌then◌else◌, length, take, get_elem?, bit_and,
}
use mini_dns.Text.{text_eq}
use mini_dns.Net.{IpAddr}

pub data Cidr : Type 0 where
  v4 : (addr : List ℕ) (prefix : ℕ) → Cidr
  v6 : (addr : List ℕ) (prefix : ℕ) → Cidr

pub record Acl : Type 0 where
  pub entries : List Cidr

abbrev pub deny_all : Acl
deny_all = record { entries = [] }

-- `0xFFu8 << (8 - rem)`.
abbrev pub mask : ℕ → ℕ
mask rem = 255 * 2 ^ (8 - rem) % 256

unfoldable pub match_byte : ℕ → Option ℕ → Option ℕ → Option Bool
match_byte rem (some x) (some y) = some (bit_and x (mask rem) == bit_and y (mask rem))
match_byte rem _ none = none
match_byte rem none _ = none

-- The body of `matches_v4` and `matches_v6`, which differ in the number of octets alone.
unfoldable pub match_at : (full_bytes rem : ℕ) (net ip : List ℕ) → Option Bool
match_at full_bytes rem net ip =
    if ltb (length ip) full_bytes || ltb (length net) full_bytes
    then none
    else if not (text_eq (take full_bytes ip) (take full_bytes net))
    then some false
    else if rem == 0
    then some true
    else match_byte rem (get_elem? ip full_bytes) (get_elem? net full_bytes)

unfoldable pub matches : List ℕ → ℕ → List ℕ → Option Bool
matches net prefix ip = match_at (prefix / 8) (prefix % 8) net ip

unfoldable pub match_entry : Cidr → IpAddr → Option Bool
match_entry (Cidr.v4 addr prefix) (IpAddr.v4 octets) = matches addr prefix octets
match_entry (Cidr.v6 addr prefix) (IpAddr.v6 octets) = matches addr prefix octets
match_entry (Cidr.v4 addr prefix) (IpAddr.v6 octets) = some false
match_entry (Cidr.v6 addr prefix) (IpAddr.v4 octets) = some false

-- The loop of `is_allowed`.
unfoldable pub any_entry : List Cidr → IpAddr → Option Bool
any_entry [] ip = some false
any_entry (c ∷ cs) ip =
    let later = any_entry cs ip in
    elim (match_entry c ip) [ none ↦ none | some hit ↦ if hit then some true else later ]

unfoldable pub is_allowed : Acl → IpAddr → Option Bool
is_allowed acl ip = any_entry acl.entries ip
