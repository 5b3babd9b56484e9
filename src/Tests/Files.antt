-- ===== src/Tests/Files.antt =====
-- A zone file as src/config.rs reads it.
use mini_dns.Prelude.{◌≡◌, refl, some, [], ◌∷◌}
use mini_dns.Text.{Text, is_empty, text_eq, to_lowercase, strip_dot}
use mini_dns.LongestFirst.{In}
use mini_dns.Text.Lines.{lines, trim, split_whitespace, join_space}
use mini_dns.Text.Numbers.{
  parse_unsigned, parse_digits, read_number, read_digits, to_digit, leads_zero, value_of,
}
use mini_dns.Net.Parse.{parse_ipv4, whole, read_ipv4, more_octets, dot_octet, read_given_char}
use mini_dns.Dns.Record.{DnsRecord, domain}
use mini_dns.Zones.{Zone, zone_get, zone_push}
use mini_dns.Zones.Load.{
  load_zone_file, load_zone_lines, load_line, add_line, is_comment, parse_line, typed_line, kind_of,
  line_record, address_line,
}
use mini_dns.Zones.Load.Owners.{owned, or_none, load_zone_file-owned}

abbrev dk : Text
dk = b'd' ∷ b'k' ∷ []

-- "DK. 60 A 1.2.3.4", a comment, and a line with too few fields.
abbrev content : Text
content =
    b'D' ∷ b'K' ∷ b'.' ∷ 32 ∷ b'6' ∷ b'0' ∷ 32 ∷ b'A' ∷ 32 ∷ b'1' ∷ b'.' ∷ b'2' ∷ b'.' ∷ b'3' ∷ b'.'
    ∷ b'4' ∷ 10 ∷ b';' ∷ b'x' ∷ 10 ∷ b'd' ∷ b'k' ∷ 32 ∷ b'9' ∷ 10 ∷ []

abbrev zone : Zone
zone = (dk, DnsRecord.a dk (1 ∷ 2 ∷ 3 ∷ 4 ∷ []) 60 ∷ []) ∷ []

loaded : load_zone_file (some content) ≡ some zone
unfolding load_zone_file load_zone_lines load_line add_line is_comment parse_line typed_line kind_of
    line_record address_line lines trim split_whitespace join_space to_lowercase strip_dot is_empty
    text_eq parse_unsigned parse_digits parse_ipv4 whole read_ipv4 more_octets dot_octet
    read_given_char read_number read_digits to_digit leads_zero value_of zone_push
loaded = refl

load_zone_file-owned_example :
    (or_none (zone_get zone dk) ≡ owned dk (lines content))
    × ((r : DnsRecord) → In r (or_none (zone_get zone dk)) → domain r ≡ dk)
load_zone_file-owned_example = load_zone_file-owned content zone dk loaded
