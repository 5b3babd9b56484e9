-- ===== src/Dns/Encoder/Compressed.antt =====
-- The pointers of `encode_qname` in src/dns/encoder.rs: every remembered offset spells its suffix,
-- and a compressed name parses back.
use mini_dns.Prelude.{
  ℕ, suc, ◌≤◌, ◌<◌, ◌≡◌, refl, ap, ◌∙◌, inl, inr, List, [], ◌∷◌, ◌++◌, arith, length,
}
use mini_dns.Text.{Text, is_empty, split_dot, join_dot, join_dot-split_dot}
use mini_dns.Dns.Error.{ok, stuck, ◌>>=◌, Ensures-ne-stuck}
use mini_dns.Dns.Parse.Name.{parse_qname, parse_qname-bounds, qname_loop, qname_fuel, start_at}
use mini_dns.Dns.Encoder.{DnsPacketEncoder, encode_qname}
use mini_dns.Dns.Encoder.Names.{IsName, strip_dot-dotted}
use mini_dns.Dns.Encoder.Spelled.{Spelled, Spelled-append, loop-Spelled}
use mini_dns.Dns.Encoder.Remembered.{IsEncoder, Written, write_root, write_labels-Written}

encode_qname-Written :
    (name : Text) (depth : ℕ) (enc : DnsPacketEncoder)
    → IsName name
    → IsEncoder depth enc
    → (labels : List Text) × (join_dot labels ≡ name)
      × Written depth enc labels (encode_qname name enc)
unfolding encode_qname is_empty
encode_qname-Written [] depth enc fine spelled =
    ([], unfold join_dot in refl, write_root depth enc (λ n o met. inl (spelled n o met)))
encode_qname-Written (c ∷ cs) depth enc fine spelled = (
  split_dot (c ∷ cs),
  join_dot-split_dot (c ∷ cs),
  write_labels-Written (split_dot (c ∷ cs)) depth enc fine (λ n o met. inl (spelled n o met)),
)

parse_qname-Spelled :
    (buf : List ℕ) (depth at end : ℕ) (labels : List Text)
    → Spelled buf depth at end labels
    → depth ≤ 64
    → parse_qname buf at ≡ ok (join_dot labels, end)
unfolding parse_qname
parse_qname-Spelled buf depth at end labels s few =
    elim (loop-Spelled buf (qname_fuel buf) (start_at at) s refl (omega arith)) [
      | inl out ↦ absurd (never_stuck out)
      | inr (s', e, q, o) ↦ rw (e, ◌>>=◌, q, strip_dot-dotted labels, o) refl
    ]
  where
    never_stuck : qname_loop (qname_fuel buf) buf (start_at at) ≡ stuck → ⊥
    never_stuck out =
        Ensures-ne-stuck (λ p. (at < p.1) × (p.1 ≤ length buf)) (parse_qname buf at)
          (parse_qname-bounds buf at) (rw (out, ◌>>=◌) refl)

-- A name, whose labels have 1 to 63 ASCII bytes, written with compression parses back to itself, and
-- the parser goes on right behind its bytes: where every remembered suffix is spelled at its offset,
-- over fewer than 64 pointers. Then the same holds after the name, over one pointer more, so that a
-- message of 64 names is safe.
pub parse_qname-encode_qname :
    (depth : ℕ) (enc : DnsPacketEncoder) (name : Text) (post : List ℕ)
    → IsEncoder depth enc
    → depth < 64
    → IsName name
    → (parse_qname ((encode_qname name enc).buf ++ post) (length enc.buf)
        ≡ ok (name, length (encode_qname name enc).buf))
      × IsEncoder (suc depth) (encode_qname name enc)
parse_qname-encode_qname depth enc name post spelled few fine =
    let (labels, whole, ((ls, e, s), entries)) = encode_qname-Written name depth enc fine spelled in
    (
      parse_qname-Spelled ((encode_qname name enc).buf ++ post) (suc depth) (length enc.buf)
            (length (encode_qname name enc).buf) ls (Spelled-append post s) (omega arith)
          ∙ ap (λ n. ok (n, length (encode_qname name enc).buf)) (e ∙ whole),
      entries,
    )
