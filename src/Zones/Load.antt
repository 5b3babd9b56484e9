-- ===== src/Zones/Load.antt =====
-- The zone files of src/config.rs: `parse_line` for a line and `load_zone_file` for a file. The content
-- of the file is an argument; a malformed line is skipped, with a warning in the log.
pub mod Owners
use mini_dns.Prelude.{
  ℕ, ◌^◌, Bool, true, false, Option, none, some, List, [], ◌∷◌, ltb, ◌==◌, if◌then◌else◌, length,
  drop, get_or, ◌||◌,
}
use mini_dns.Text.{Text, text_eq, is_empty, to_lowercase, strip_dot}
use mini_dns.Text.Lines.{lines, trim, split_whitespace, join_space, trim_quotes}
use mini_dns.Text.Numbers.{parse_unsigned}
use mini_dns.Net.Parse.{parse_ipv4, parse_ipv6}
use mini_dns.Dns.Record.{DnsRecord}
use mini_dns.Zones.{Zone, AuthZone, ZoneSet, zone_push, new_zones}

infixl 5 ◌>>=◌
abbrev pub ◌>>=◌ : {A B : Type 0} → Option A → (A → Option B) → Option B
none >>= f = none
some x >>= f = f x

-- A type that the server does not support is not an error.
pub data Line : Type 0 where
  malformed : Line
  unsupported : Line
  entry : Text → DnsRecord → Line

abbrev pub u8 : Text → Option ℕ
u8 = parse_unsigned (2 ^ 8)

abbrev pub u16 : Text → Option ℕ
u16 = parse_unsigned (2 ^ 16)

abbrev pub u32 : Text → Option ℕ
u32 = parse_unsigned (2 ^ 32)

-- The field of a given number; every use is behind a check of their count.
abbrev pub field : List Text → ℕ → Text
field parts i = get_or parts i []

-- `bail!` where there are too few fields.
abbrev pub at_least : {A : Type 0} → ℕ → List Text → Option A → Option A
at_least n parts o = if ltb (length parts) n then none else o

unfoldable pub mx_line : Text → ℕ → List Text → Option DnsRecord
mx_line domain ttl parts = at_least 5 parts (do
  preference ← u16 (field parts 3)
  some (DnsRecord.mx domain preference (strip_dot (field parts 4)) ttl))

unfoldable pub srv_line : Text → ℕ → List Text → Option DnsRecord
srv_line domain ttl parts = at_least 7 parts (do
  priority ← u16 (field parts 3)
  weight ← u16 (field parts 4)
  port ← u16 (field parts 5)
  some (DnsRecord.srv domain priority weight port (strip_dot (field parts 6)) ttl))

unfoldable pub caa_line : Text → ℕ → List Text → Option DnsRecord
caa_line domain ttl parts = at_least 6 parts (do
  flags ← u8 (field parts 3)
  some (DnsRecord.caa domain flags (field parts 4) (trim_quotes (join_space (drop 5 parts))) ttl))

unfoldable pub soa_line : Text → ℕ → List Text → Option DnsRecord
soa_line domain ttl parts = at_least 10 parts (do
  serial ← u32 (field parts 5)
  refresh ← u32 (field parts 6)
  retry ← u32 (field parts 7)
  expire ← u32 (field parts 8)
  minimum ← u32 (field parts 9)
  some (
      DnsRecord.soa domain (strip_dot (field parts 3)) (strip_dot (field parts 4)) serial refresh
        retry expire minimum ttl))

unfoldable pub address_line : Text → ℕ → Text → Option DnsRecord
address_line domain ttl data' = parse_ipv4 data' >>= λ addr. some (DnsRecord.a domain addr ttl)

unfoldable pub address6_line : Text → ℕ → Text → Option DnsRecord
address6_line domain ttl data' = parse_ipv6 data' >>= λ addr. some (DnsRecord.aaaa domain addr ttl)

-- The types of the `match`.
pub data Kind : Type 0 where
  a : Kind
  aaaa : Kind
  cname : Kind
  ns : Kind
  mx : Kind
  txt : Kind
  ptr : Kind
  srv : Kind
  caa : Kind
  soa : Kind

abbrev pub kinds : List (Text × Kind)
kinds =
    (b'A' ∷ [], Kind.a)
    ∷ (b'A' ∷ b'A' ∷ b'A' ∷ b'A' ∷ [], Kind.aaaa)
    ∷ (b'C' ∷ b'N' ∷ b'A' ∷ b'M' ∷ b'E' ∷ [], Kind.cname)
    ∷ (b'N' ∷ b'S' ∷ [], Kind.ns)
    ∷ (b'M' ∷ b'X' ∷ [], Kind.mx)
    ∷ (b'T' ∷ b'X' ∷ b'T' ∷ [], Kind.txt)
    ∷ (b'P' ∷ b'T' ∷ b'R' ∷ [], Kind.ptr)
    ∷ (b'S' ∷ b'R' ∷ b'V' ∷ [], Kind.srv)
    ∷ (b'C' ∷ b'A' ∷ b'A' ∷ [], Kind.caa)
    ∷ (b'S' ∷ b'O' ∷ b'A' ∷ [], Kind.soa)
    ∷ []

unfoldable pub kind_of : List (Text × Kind) → Text → Option Kind
kind_of [] word = none
kind_of ((name, kind) ∷ ks) word =
    let rest = kind_of ks word in if text_eq name word then some kind else rest

-- The record of a line, or `none` for an error; `data'` joins the fields behind the type.
unfoldable pub line_record : Kind → Text → ℕ → List Text → Text → Option DnsRecord
line_record Kind.a domain ttl parts data' = address_line domain ttl data'
line_record Kind.aaaa domain ttl parts data' = address6_line domain ttl data'
line_record Kind.cname domain ttl parts data' = some (DnsRecord.cname domain (strip_dot data') ttl)
line_record Kind.ns domain ttl parts data' = some (DnsRecord.ns domain (strip_dot data') ttl)
line_record Kind.mx domain ttl parts data' = mx_line domain ttl parts
line_record Kind.txt domain ttl parts data' = some (DnsRecord.txt domain (trim_quotes data') ttl)
line_record Kind.ptr domain ttl parts data' = some (DnsRecord.ptr domain (strip_dot data') ttl)
line_record Kind.srv domain ttl parts data' = srv_line domain ttl parts
line_record Kind.caa domain ttl parts data' = caa_line domain ttl parts
line_record Kind.soa domain ttl parts data' = soa_line domain ttl parts

abbrev pub entry_of : Text → Option DnsRecord → Line
entry_of domain none = malformed
entry_of domain (some r) = entry domain r

unfoldable pub typed_line : Option Kind → Text → ℕ → List Text → Line
typed_line none domain ttl parts = unsupported
typed_line (some kind) domain ttl parts =
    entry_of domain (line_record kind domain ttl parts (join_space (drop 3 parts)))

unfoldable pub parse_line : Text → Line
parse_line line =
    let parts = split_whitespace line in
    let domain = strip_dot (to_lowercase (field parts 0)) in
    if ltb (length parts) 4 then malformed else elim (u32 (field parts 1)) [
      | none ↦ malformed
      | some ttl ↦ typed_line (kind_of kinds (field parts 2)) domain ttl parts
    ]

-- `line.is_empty() || line.starts_with(';')`.
unfoldable pub is_comment : Text → Bool
is_comment [] = true
is_comment (c ∷ s) = c == b';'

unfoldable pub add_line : Line → Zone → Zone
add_line malformed zone = zone
add_line unsupported zone = zone
add_line (entry domain r) zone = zone_push domain r zone

unfoldable pub load_line : Text → Zone → Zone
load_line line zone =
    if is_comment (trim line) then zone else add_line (parse_line (trim line)) zone

-- The loop over the lines.
unfoldable pub load_zone_lines : List Text → Zone → Zone
load_zone_lines [] zone = zone
load_zone_lines (line ∷ rest) zone = load_zone_lines rest (load_line line zone)

unfoldable pub load_zone_file : (content : Option Text) → Option Zone
load_zone_file none = none
load_zone_file (some content) = some (load_zone_lines (lines content) [])

pub record ZoneSettings : Type 0 where
  pub origin : Text
  pub file : Text

-- The loop of `load_zones_from_settings`; `read` is the file system.
unfoldable pub load_zones : (read : Text → Option Text) → List ZoneSettings → Option (List AuthZone)
load_zones read [] = some []
load_zones read (z ∷ zs) = do
  records ← load_zone_file (read z.file)
  later ← load_zones read zs
  some (record { origin = to_lowercase z.origin; records = records } ∷ later)

unfoldable pub load_zones_from_settings :
    (read : Text → Option Text) → Option (List ZoneSettings) → Option ZoneSet
load_zones_from_settings read none = some (record { zones = [] })
load_zones_from_settings read (some zone_cfgs) =
    load_zones read zone_cfgs >>= λ zones. some (new_zones zones)
