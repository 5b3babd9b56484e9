-- ===== src/Blocklist/Load.antt =====
-- What `from_file` and `reload` of src/blocklist.rs leave in the list.
use mini_dns.Prelude.{
  ◌≢◌, ◌≡◌, refl, inl, inr, Bool, true, false, not, ◌||◌, Option, none, some, List, [], ◌∷◌, arith,
  Bool-cases,
}
use mini_dns.LongestFirst.{All, In}
use mini_dns.Text.{Text, is_empty, to_lowercase, contains, contains_refl}
use mini_dns.Text.Lines.{lines, trim}
use mini_dns.Blocklist.{
  Blocklist, insert, is_valid_domain, is_comment, load_line, load_lines, load_blocklist_file,
  from_file, reload, is_blocked,
}
use mini_dns.Blocklist.Domains.{IsDomain, is_valid_domain-IsDomain, IsDomain-is_valid_domain}

-- A line that is a domain in lower case, and neither empty nor a comment.
abbrev pub IsEntry : Text → Type 0
IsEntry [] = ⊥
IsEntry (c ∷ cs) = (c ≢ b';') × (c ≢ b'#') × IsDomain (to_lowercase (c ∷ cs))

-- Some line of the file, trimmed, gives the domain.
abbrev pub IsListed : Text → Text → Type 0
IsListed content domain =
    (line : Text) × In line (lines content)
    × IsEntry (trim line)
    × (domain ≡ to_lowercase (trim line))

IsEntry-valid :
    (line : Text)
    → IsEntry line
    → (is_comment line ≡ false)
      × (is_empty (to_lowercase line) ≡ false)
      × (is_valid_domain (to_lowercase line) ≡ true)
unfolding is_comment to_lowercase is_empty
IsEntry-valid [] h = elim h [ ]
IsEntry-valid (c ∷ cs) (h, h', valid) =
    (ground arith, refl, IsDomain-is_valid_domain (to_lowercase (c ∷ cs)) valid)

valid-IsEntry :
    (line : Text)
    → is_comment line ≡ false
    → is_valid_domain (to_lowercase line) ≡ true
    → IsEntry line
unfolding is_comment
valid-IsEntry [] h valid = absurd (ground arith)
valid-IsEntry (c ∷ cs) h valid =
    (λ e. ground arith, λ e. ground arith, is_valid_domain-IsDomain (to_lowercase (c ∷ cs)) valid)

insert-All :
    (P : Text → Type 0) (d : Text) (set : List Text) → P d → All P set → All P (insert d set)
unfolding insert
insert-All P d set h all = elim (Bool-cases (contains set d)) [
  | inl there ↦ rw (there, insert) all
  | inr new ↦ rw (new, insert) (h, all)
]

insert-keeps_entry :
    (d x : Text) (set : List Text) → contains set x ≡ true → contains (insert d set) x ≡ true
unfolding insert contains
insert-keeps_entry d x set h = ground arith

insert-has : (d : Text) (set : List Text) → contains (insert d set) d ≡ true
unfolding insert
insert-has d set = elim (Bool-cases (contains set d)) [
  | inl there ↦ rw (there, insert) there
  | inr new ↦ rw (new, insert) (contains_refl set d)
]

load_line-All :
    (P : Text → Type 0) (set : List Text) (line : Text)
    → (IsEntry line → P (to_lowercase line))
    → All P set
    → All P (load_line set line)
unfolding load_line
load_line-All P set line h all =
    elim (Bool-cases (
      is_comment line
      || is_empty (to_lowercase line)
      || not (is_valid_domain (to_lowercase line)))) [
        | inl skipped ↦ rw (skipped, load_line) all
        | inr kept ↦
            let entry = valid-IsEntry line (ground arith) (ground arith) in
            rw (kept, load_line) (insert-All P (to_lowercase line) set (h entry) all)
      ]

load_line-keeps :
    (set : List Text) (line x : Text)
    → contains set x ≡ true
    → contains (load_line set line) x ≡ true
unfolding load_line
load_line-keeps set line x h = ground (arith, insert-keeps_entry (to_lowercase line) x set)

load_line-has :
    (set : List Text) (line : Text)
    → IsEntry line
    → contains (load_line set line) (to_lowercase line) ≡ true
unfolding load_line
load_line-has set line entry =
    let (text, some_name, valid) = IsEntry-valid line entry in
    rw (text, load_line, some_name, valid) (insert-has (to_lowercase line) set)

load_lines-All :
    (P : Text → Type 0) (set rest : List Text)
    → ((line : Text) → In line rest → IsEntry (trim line) → P (to_lowercase (trim line)))
    → All P set
    → All P (load_lines set rest)
unfolding load_lines
load_lines-All P set [] h all = all
load_lines-All P set (line ∷ rest) h all =
    load_lines-All P (load_line set (trim line)) rest (λ line' i. h line' (inr i))
      (load_line-All P set (trim line) (h line (inl refl)) all)

load_lines-keeps :
    (set rest : List Text) (x : Text)
    → contains set x ≡ true
    → contains (load_lines set rest) x ≡ true
unfolding load_lines
load_lines-keeps set [] x h = h
load_lines-keeps set (line ∷ rest) x h =
    load_lines-keeps (load_line set (trim line)) rest x (load_line-keeps set (trim line) x h)

load_lines-has :
    (set rest : List Text) (line : Text)
    → In line rest
    → IsEntry (trim line)
    → contains (load_lines set rest) (to_lowercase (trim line)) ≡ true
unfolding load_lines
load_lines-has set [] line i h = elim i [ ]
load_lines-has set (line' ∷ rest) line (inl e) h =
    load_lines-keeps (load_line set (trim line')) rest (to_lowercase (trim line))
      (rw e (load_line-has set (trim line') (rw e at h)))
load_lines-has set (line' ∷ rest) line (inr i) h =
    load_lines-has (load_line set (trim line')) rest line i h

-- A file that can be read gives a list, whose entries all come from a line of the file, and which
-- blocks every name that a line gives. Such a line, trimmed, is no comment and holds, in lower case, a
-- domain: labels of letters, digits and hyphens between dots, none empty, each of which may have one
-- star in front.
pub from_file-blocks :
    (read : Text → Option Text) (path content : Text)
    → read path ≡ some content
    → (list : Blocklist) × (from_file read path ≡ some list)
      × All (IsListed content) list.entries
      × ((line : Text)
          → In line (lines content)
          → IsEntry (trim line)
          → is_blocked list (trim line) ≡ true)
unfolding from_file load_blocklist_file is_blocked
from_file-blocks read path content e = (
  record { entries = load_lines [] (lines content); path = some path },
  rw (e, from_file, load_blocklist_file) refl,
  load_lines-All (IsListed content) [] (lines content) (λ line i entry. (line, i, entry, refl)) tt,
  λ line i h. rw (load_lines-has [] (lines content) line i h, is_blocked) refl,
)

-- What a reload leaves: the list as loaded afresh, or the old one where that fails.
abbrev pub or_old : Blocklist → Option Blocklist → Blocklist × Bool
or_old list none = (list, false)
or_old list (some fresh) = (fresh, true)

-- A reload of a list that has a file leaves what loading the file afresh gives, whatever the
-- entries were. Where the file cannot be read it leaves the list as it was, and reports a failure.
pub reload-from_file :
    (read : Text → Option Text) (entries : List Text) (path : Text)
    → reload read (record { entries = entries; path = some path })
      ≡ or_old (record { entries = entries; path = some path }) (from_file read path)
unfolding reload from_file
reload-from_file read entries path = loaded (load_blocklist_file (read path))
  where
    loaded :
        (o : Option (List Text))
        → elim o [
          | none ↦ (record { entries = entries; path = some path }, false)
          | some set ↦ (record { entries = set; path = some path }, true)
        ]
          ≡ or_old
              (record { entries = entries; path = some path })
              (elim o [
                | none ↦ none
                | some set ↦ some (record { entries = set; path = some path })
              ])
    loaded none = refl
    loaded (some set) = refl
