-- ===== src/Recursive/Names.antt =====
-- The names that src/recursive.rs derives from a query: the labels, the parent domain, the zone of a
-- delegation (`delegation_zone`) and the name to ask for next (`minimized_qname`).
use mini_dns.Prelude.{
  ◌+◌, ◌-◌, Option, none, some, List, [], ◌∷◌, leb, ◌==◌, if◌then◌else◌, length, drop, get_or,
}
use mini_dns.Text.{Text, dot, is_empty, split_dot, join_dot}

-- `.filter(|l| !l.is_empty())`.
unfoldable pub nonempty : List Text → List Text
nonempty [] = []
nonempty (l ∷ ls) = let rest = nonempty ls in if is_empty l then rest else l ∷ rest

-- `name.split('.').filter(|l| !l.is_empty())`.
unfoldable pub labels : Text → List Text
labels name = nonempty (split_dot name)

-- What stands behind the first dot: `split_once('.')`, and `find('.')` with the slice behind it.
unfoldable pub after_dot : Text → Option Text
after_dot [] = none
after_dot (c ∷ s) = let rest = after_dot s in if c == dot then some s else rest

-- `split_once('.').map(|(_, parent)| parent).unwrap_or("")`.
unfoldable pub parent : Text → Text
parent name = elim (after_dot name) [ some rest ↦ rest | none ↦ [] ]

unfoldable pub delegation_zone : Text → Text
delegation_zone name = elim (after_dot name) [ some rest ↦ rest | none ↦ name ]

unfoldable pub minimized_qname : Text → Text → Text
minimized_qname name current_zone =
    let ls = labels name in
    let query_labels = length (labels current_zone) + 1 in
    if is_empty ls
    then name
    else if is_empty current_zone
    then get_or ls (length ls - 1) []
    else if leb (length ls) query_labels
    then name
    else join_dot (drop (length ls - query_labels) ls)
