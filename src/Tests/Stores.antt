-- ===== src/Tests/Stores.antt =====
-- The cache of src/cache.rs over an association list.
use mini_dns.Prelude.{ℕ, ◌≤◌, ◌<◌, ◌≡◌, refl, max, some, List, [], ◌∷◌, arith}
use mini_dns.Text.{Text, to_lowercase, text_eq}
use mini_dns.DashMap.{DashMap}
use mini_dns.DashMap.Assoc.{assoc}
use mini_dns.Cache.{Key, Entry, Cache, key_eq, key_eq_iff, get, insert}
use mini_dns.Cache.Contents.{
  Store, store_insert, Refines, insert-Refines, get-Refines, insert-keeps,
}
use mini_dns.Cache.Size.{insert-len}

abbrev table : DashMap Key Entry
table = assoc key_eq key_eq_iff

abbrev dk : Text
dk = b'd' ∷ b'k' ∷ []

abbrev upper_dk : Text
upper_dk = b'D' ∷ b'K' ∷ []

abbrev old : Entry
old = record { response = 9 ∷ []; expires_at = 500 }

-- One entry of two is taken.
abbrev cache : Cache (List (Key × Entry))
cache = record { map = ((dk, 1), old) ∷ []; capacity = 2 }

abbrev store : Store table
store key = table.get cache.map key

same_store : Refines table cache store
same_store key entry e = e

insert-Refines_example :
    Refines table
      (insert table cache dk 28 (5 ∷ []) 60 10 11)
      (store_insert table store dk 28 (5 ∷ []) 60 11)
insert-Refines_example = insert-Refines table cache store dk 28 (5 ∷ []) 60 10 11 same_store

get-Refines_example :
    Refines table (get table cache upper_dk 1 10).1 store
    × ((response : List ℕ)
        → (get table cache upper_dk 1 10).0 ≡ some response
        → (entry : Entry) × (store (to_lowercase upper_dk, 1) ≡ some entry)
          × (entry.response ≡ response)
          × (10 < entry.expires_at))
get-Refines_example = get-Refines table cache store upper_dk 1 10 same_store

abbrev other : Entry
other = record { response = 8 ∷ []; expires_at = 600 }

-- Both places are taken, and the entry for type 1 is met first.
abbrev full : Cache (List (Key × Entry))
full = record { map = ((dk, 1), old) ∷ ((dk, 2), other) ∷ []; capacity = 2 }

insert-keeps_example :
    table.get (insert table full dk 28 (5 ∷ []) 60 10 11).map (dk, 2) ≡ some other
unfolding to_lowercase text_eq
insert-keeps_example =
    insert-keeps table full dk 28 (5 ∷ []) 60 10 11 (dk, 2) other refl (omega arith)
      (λ e. ground arith) (λ e. ground arith)

insert-len_example : table.len (insert table full dk 28 (5 ∷ []) 60 10 11).map ≤ max 2 1
insert-len_example = insert-len table full dk 28 (5 ∷ []) 60 10 11 (omega arith)
