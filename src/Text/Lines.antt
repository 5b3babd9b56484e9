-- ===== src/Text/Lines.antt =====
-- `str::lines` and `str::trim` (std), for the files that config.rs and blocklist.rs read. A
-- carriage return before a line feed stays in its line, since every caller trims the lines; of the
-- white space, the ASCII characters are modelled.
use mini_dns.Prelude.{ℕ, ◌≡◌, refl, Bool, ◌&&◌, ◌||◌, List, [], ◌∷◌, ◌++◌, leb, ◌==◌, if◌then◌else◌}
use mini_dns.Text.{Text, is_empty}

push_front : ℕ → List Text → List Text
push_front c [] = (c ∷ []) ∷ []
push_front c (line ∷ lines) = (c ∷ line) ∷ lines

unfoldable pub lines : Text → List Text
unfolding push_front
lines [] = []
lines (c ∷ s) = let rest = lines s in if c == 10 then [] ∷ rest else push_front c rest

is_whitespace : ℕ → Bool
is_whitespace c = (leb 9 c && leb c 13) || (c == 32)

trim_start : Text → Text
unfolding is_whitespace
trim_start [] = []
trim_start (c ∷ s) = let rest = trim_start s in if is_whitespace c then rest else c ∷ s

trim_end : Text → Text
unfolding is_whitespace is_empty
trim_end [] = []
trim_end (c ∷ s) =
    let rest = trim_end s in if is_empty rest && is_whitespace c then [] else c ∷ rest

unfoldable pub trim : Text → Text
unfolding trim_start trim_end
trim s = trim_start (trim_end s)

trims : trim (32 ∷ 9 ∷ b'a' ∷ 32 ∷ b'b' ∷ 13 ∷ []) ≡ b'a' ∷ 32 ∷ b'b' ∷ []
unfolding trim
trims = refl

splits : lines (b'a' ∷ 10 ∷ 10 ∷ b'b' ∷ 10 ∷ []) ≡ (b'a' ∷ []) ∷ [] ∷ (b'b' ∷ []) ∷ []
unfolding lines
splits = refl

-- `split_whitespace`: the pieces between white space that are not empty.
split_at_whitespace : Text → List Text
unfolding push_front is_whitespace
split_at_whitespace [] = [] ∷ []
split_at_whitespace (c ∷ s) =
    let rest = split_at_whitespace s in if is_whitespace c then [] ∷ rest else push_front c rest

drop_empty : List Text → List Text
drop_empty [] = []
drop_empty (piece ∷ pieces) =
    let rest = drop_empty pieces in if is_empty piece then rest else piece ∷ rest

unfoldable pub split_whitespace : Text → List Text
unfolding split_at_whitespace drop_empty
split_whitespace s = drop_empty (split_at_whitespace s)

-- `join(" ")`.
unfoldable pub join_space : List Text → Text
join_space [] = []
join_space (piece ∷ []) = piece
join_space (piece ∷ next ∷ pieces) = piece ++ (32 ∷ join_space (next ∷ pieces))

-- `trim_matches('"')`.
trim_start_quotes : Text → Text
trim_start_quotes [] = []
trim_start_quotes (c ∷ s) = let rest = trim_start_quotes s in if c == 34 then rest else c ∷ s

trim_end_quotes : Text → Text
unfolding is_empty
trim_end_quotes [] = []
trim_end_quotes (c ∷ s) =
    let rest = trim_end_quotes s in if is_empty rest && c == 34 then [] else c ∷ rest

unfoldable pub trim_quotes : Text → Text
unfolding trim_start_quotes trim_end_quotes
trim_quotes s = trim_start_quotes (trim_end_quotes s)

splits_words :
    split_whitespace (b'a' ∷ 32 ∷ 9 ∷ b'b' ∷ b'c' ∷ 32 ∷ []) ≡ (b'a' ∷ []) ∷ (b'b' ∷ b'c' ∷ []) ∷ []
unfolding split_whitespace is_empty
splits_words = refl

trims_quotes : trim_quotes (34 ∷ b'a' ∷ 34 ∷ b'b' ∷ 34 ∷ 34 ∷ []) ≡ b'a' ∷ 34 ∷ b'b' ∷ []
unfolding trim_quotes
trims_quotes = refl
