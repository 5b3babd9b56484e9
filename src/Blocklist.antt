-- ===== src/Blocklist.antt =====
-- src/blocklist.rs: the names that are answered with NXDOMAIN. The set of entries is a list
-- without an order; `swap` of the `ArcSwap` is the new value of the field. The file's contents are
-- an argument, `none` where it cannot be read. The log lines are left out.
pub mod Blocked
pub mod Domains
pub mod Load
use mini_dns.Prelude.{
  ℕ, Bool, true, false, not, ◌&&◌, ◌||◌, Option, none, some, List, [], ◌∷◌, ◌++◌, map, leb, ◌==◌,
  if◌then◌else◌,
}
use mini_dns.Text.{Text, dot, is_empty, to_lowercase, split_dot, contains}
use mini_dns.Text.Parents.{find_parent}
use mini_dns.Text.Lines.{lines, trim}
use mini_dns.Zones.{is_some}

pub record Blocklist : Type 0 where
  pub entries : List Text
  pub path : Option Text

abbrev pub empty : Blocklist
empty = record { entries = []; path = none }

-- `HashSet::insert`.
unfoldable pub insert : Text → List Text → List Text
insert domain set = if contains set domain then set else domain ∷ set

-- `iter().collect()`.
unfoldable pub collect : List Text → List Text
collect [] = []
collect (d ∷ ds) = insert d (collect ds)

unfoldable pub from_domains : List Text → Blocklist
from_domains domains = record { entries = collect (map to_lowercase domains); path = none }

unfoldable pub is_active : Blocklist → Bool
is_active list = not (is_empty list.entries)

-- `entries.contains(&format!("*.{remainder}"))`, with a result where the loop returns.
abbrev pub wildcard_entry : List Text → Text → Option Bool
wildcard_entry entries remainder =
    if contains entries (b'*' ∷ dot ∷ remainder) then some true else none

unfoldable pub is_blocked : Blocklist → Text → Bool
is_blocked list name =
    if contains list.entries (to_lowercase name)
    then true
    else is_some (find_parent (wildcard_entry list.entries) (to_lowercase name))

-- `is_ascii_alphanumeric() || c == '-'`. No byte of a character beyond ASCII passes.
unfoldable pub is_label_char : ℕ → Bool
is_label_char c =
    (leb b'0' c && leb c b'9')
    || (leb b'A' c && leb c b'Z')
    || (leb b'a' c && leb c b'z')
    || (c == b'-')

unfoldable pub all_label_chars : Text → Bool
all_label_chars [] = true
all_label_chars (c ∷ cs) = is_label_char c && all_label_chars cs

-- `strip_prefix('*').unwrap_or(label)`.
unfoldable pub strip_star : Text → Text
strip_star [] = []
strip_star (c ∷ cs) = if c == b'*' then cs else c ∷ cs

unfoldable pub is_valid_label : Text → Bool
is_valid_label label = not (is_empty label) && all_label_chars (strip_star label)

unfoldable pub all_valid_labels : List Text → Bool
all_valid_labels [] = true
all_valid_labels (l ∷ ls) = is_valid_label l && all_valid_labels ls

unfoldable pub is_valid_domain : Text → Bool
is_valid_domain domain = not (is_empty domain) && all_valid_labels (split_dot domain)

-- `line.is_empty() || line.starts_with(';') || line.starts_with('#')`.
unfoldable pub is_comment : Text → Bool
is_comment [] = true
is_comment (c ∷ cs) = (c == b';') || (c == b'#')

-- The body of the loop over the lines, each one trimmed.
unfoldable pub load_line : List Text → Text → List Text
load_line set line =
    let domain = to_lowercase line in
    if is_comment line || is_empty domain || not (is_valid_domain domain)
    then set
    else insert domain set

unfoldable pub load_lines : List Text → List Text → List Text
load_lines set [] = set
load_lines set (line ∷ rest) = load_lines (load_line set (trim line)) rest

unfoldable pub load_blocklist_file : Option Text → Option (List Text)
load_blocklist_file none = none
load_blocklist_file (some content) = some (load_lines [] (lines content))

unfoldable pub from_file : (Text → Option Text) → Text → Option Blocklist
from_file read path = elim (load_blocklist_file (read path)) [
  | none ↦ none
  | some set ↦ some (record { entries = set; path = some path })
]

-- The list after the reload, and whether it succeeded.
unfoldable pub reload : (Text → Option Text) → Blocklist → Blocklist × Bool
reload read list = elim list.path [
  | none ↦ (list, true)
  | some path ↦ elim (load_blocklist_file (read path)) [
    | none ↦ (list, false)
    | some set ↦ (record list { entries = set }, true)
  ]
]
