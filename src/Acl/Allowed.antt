-- ===== src/Acl/Allowed.antt =====
-- `Acl::is_allowed` of src/acl.rs against the networks that the list names.
use mini_dns.Prelude.{
  ◌≤◌, ◌≡◌, refl, ◌⊎◌, inl, inr, true, false, List, [], ◌∷◌, arith, length, Bool-cases,
}
use mini_dns.Net.{IpAddr}
use mini_dns.Acl.{Cidr, Acl, match_entry, any_entry, is_allowed}
use mini_dns.Acl.Prefix.{AreBytes, SameBits, Decides, matches-Decides}

-- What `parse_cidr` builds: a prefix of at most all the bits of the address.
abbrev pub IsCidr : Cidr → Type 0
IsCidr (Cidr.v4 addr prefix) = (length addr ≡ 4) × (prefix ≤ 32) × AreBytes addr
IsCidr (Cidr.v6 addr prefix) = (length addr ≡ 16) × (prefix ≤ 128) × AreBytes addr

abbrev pub IsAddr : IpAddr → Type 0
IsAddr (IpAddr.v4 octets) = (length octets ≡ 4) × AreBytes octets
IsAddr (IpAddr.v6 octets) = (length octets ≡ 16) × AreBytes octets

abbrev pub AreCidrs : List Cidr → Type 0
AreCidrs [] = Unit
AreCidrs (c ∷ cs) = IsCidr c × AreCidrs cs

-- The address lies in the network, which is of its own family.
abbrev pub InNetwork : IpAddr → Cidr → Type 0
InNetwork (IpAddr.v4 octets) (Cidr.v4 addr prefix) = SameBits prefix octets addr
InNetwork (IpAddr.v6 octets) (Cidr.v6 addr prefix) = SameBits prefix octets addr
InNetwork (IpAddr.v4 octets) (Cidr.v6 addr prefix) = ⊥
InNetwork (IpAddr.v6 octets) (Cidr.v4 addr prefix) = ⊥

abbrev pub InSome : IpAddr → List Cidr → Type 0
InSome ip [] = ⊥
InSome ip (c ∷ cs) = InNetwork ip c ⊎ InSome ip cs

match_entry-Decides :
    (c : Cidr) (ip : IpAddr) → IsCidr c → IsAddr ip → Decides (match_entry c ip) (InNetwork ip c)
unfolding match_entry
match_entry-Decides (Cidr.v4 addr prefix) (IpAddr.v4 octets) h k =
    matches-Decides addr octets prefix (omega arith) (omega arith) h.2 k.1
match_entry-Decides (Cidr.v6 addr prefix) (IpAddr.v6 octets) h k =
    matches-Decides addr octets prefix (omega arith) (omega arith) h.2 k.1
match_entry-Decides (Cidr.v4 addr prefix) (IpAddr.v6 octets) h k =
    (false, refl, ((λ e. absurd (ground arith)), (λ x. absurd x)))
match_entry-Decides (Cidr.v6 addr prefix) (IpAddr.v4 octets) h k =
    (false, refl, ((λ e. absurd (ground arith)), (λ x. absurd x)))

any_entry-Decides :
    (cs : List Cidr) (ip : IpAddr)
    → AreCidrs cs
    → IsAddr ip
    → Decides (any_entry cs ip) (InSome ip cs)
unfolding any_entry
any_entry-Decides [] ip h k = (false, refl, ((λ e. absurd (ground arith)), (λ x. absurd x)))
any_entry-Decides (c ∷ cs) ip h k =
    let (here, e, now) = match_entry-Decides c ip h.0 k in
    let (there, e', later) = any_entry-Decides cs ip h.1 k in
    elim (Bool-cases here) [
      | inl hit ↦ (true, ground arith, ((λ _. inl (now.0 hit)), (λ _. refl)))
      | inr miss ↦ (
        there,
        ground arith,
        (
          (λ t. inr (later.0 t)),
          elim [ inl x ↦ absurd (ground (arith, now.1 x)) | inr y ↦ later.1 y ],
        ),
      )
    ]

-- On networks and a client that are well formed `is_allowed` answers without a panic, and says yes
-- exactly when the client lies in one of the networks of its own address family. An empty list
-- denies everyone.
pub is_allowed-Decides :
    (acl : Acl) (ip : IpAddr)
    → AreCidrs acl.entries
    → IsAddr ip
    → Decides (is_allowed acl ip) (InSome ip acl.entries)
unfolding is_allowed
is_allowed-Decides acl ip h k = any_entry-Decides acl.entries ip h k
