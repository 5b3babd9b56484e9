-- ===== src/Blocklist/Blocked.antt =====
-- What `is_blocked` of src/blocklist.rs promises: an exact entry, or the wildcard of a parent.
use mini_dns.Prelude.{
  ◌≡◌, refl, ◌↔◌, ◌⊎◌, inl, inr, Bool, true, Option, none, some, List, ◌∷◌, ◌++◌, arith, Bool-cases,
}
use mini_dns.Text.{Text, dot, to_lowercase, contains}
use mini_dns.Text.Parents.{find_parent, IsNearest, find_parent-IsNearest}
use mini_dns.Zones.{is_some}
use mini_dns.Blocklist.{Blocklist, is_blocked, wildcard_entry}

-- Some parent domain of the name has its wildcard in the list.
abbrev pub HasWildcard : List Text → Text → Type 0
HasWildcard entries name =
    (front : Text) × (parent : Text) × (name ≡ front ++ (dot ∷ parent))
    × (contains entries (b'*' ∷ dot ∷ parent) ≡ true)

wildcard_entry_lem :
    (entries : List Text) (parent : Text) (b : Bool)
    → wildcard_entry entries parent ≡ some b
    → contains entries (b'*' ∷ dot ∷ parent) ≡ true
wildcard_entry_lem entries parent b e = ground arith

no_wildcard :
    (entries : List Text) (name : Text)
    → IsNearest (wildcard_entry entries) name none
    → HasWildcard entries name
    → ⊥
no_wildcard entries name all (front, parent, e, held) =
    let miss = all front parent e in ground arith

loop_iff :
    (entries : List Text) (name : Text)
    → (is_some (find_parent (wildcard_entry entries) name) ≡ true) ↔ HasWildcard entries name
unfolding is_some
loop_iff entries name =
    from (find_parent (wildcard_entry entries) name)
      (find_parent-IsNearest (wildcard_entry entries) name)
  where
    from :
        (o : Option Bool)
        → IsNearest (wildcard_entry entries) name o
        → (is_some o ≡ true) ↔ HasWildcard entries name
    from none all = ((λ e. cc), (λ h. absurd (no_wildcard entries name all h)))
    from (some b) (front, parent, e, hit, nearest) =
        ((λ _. (front, parent, e, wildcard_entry_lem entries parent b hit)), (λ _. refl))

-- A name is blocked exactly where, in lower case, it is an entry, or lies below the domain of a
-- wildcard entry, at any depth. A wildcard does not block its own domain by itself.
pub is_blocked_iff :
    (list : Blocklist) (name : Text)
    → (is_blocked list name ≡ true) ↔ (
        (contains list.entries (to_lowercase name) ≡ true)
        ⊎ HasWildcard list.entries (to_lowercase name))
unfolding is_blocked
is_blocked_iff list name = elim (Bool-cases (contains list.entries (to_lowercase name))) [
  | inl exact ↦ ((λ _. inl exact), (λ _. rw (exact, is_blocked)))
  | inr other ↦
      let (to, back) = loop_iff list.entries (to_lowercase name) in
      rw (other, is_blocked) ((λ e. inr (to e)), elim [ inl e ↦ cc | inr h ↦ back h ])
]
