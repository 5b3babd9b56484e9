-- ===== src/Dns/Encoder/Appends.antt =====
-- What src/dns/encoder.rs writes: a name, and each step that extends the buffer, only appends.
use mini_dns.Prelude.{
  ℕ, ◌≡◌, refl, ap, ◌∙◌, List, [], ◌∷◌, ◌++◌, arith, Bool-cases, Option-cases, inl, inr,
}
use mathlib.Core.List.{append_assoc}
use mini_dns.Text.{Text, is_empty, split_dot, join_dot}
use mini_dns.Dns.Encoder.{
  DnsPacketEncoder, u16_bytes, extend, get, label_bytes, remember, pointer, write_labels,
  encode_qname,
}

-- The bytes written so far stay, and more may follow.
abbrev pub Appends : DnsPacketEncoder → DnsPacketEncoder → Type 0
Appends enc done = (part : List ℕ) × (done.buf ≡ enc.buf ++ part)

pub Appends-trans :
    (enc mid done : DnsPacketEncoder) → Appends enc mid → Appends mid done → Appends enc done
Appends-trans enc mid done (part, e) (part', e') =
    (part ++ part', e' ∙ ap (λ b. b ++ part') e ∙ append_assoc enc.buf part part')

pub extend-Appends : (bytes : List ℕ) (enc : DnsPacketEncoder) → Appends enc (extend bytes enc)
unfolding extend
extend-Appends bytes enc = (bytes, refl)

pub remember-buf : (suffix : Text) (enc : DnsPacketEncoder) → (remember suffix enc).buf ≡ enc.buf
unfolding remember
remember-buf suffix enc = ground arith

pub write_labels-Appends :
    (labels : List Text) (enc : DnsPacketEncoder) → Appends enc (write_labels labels enc)
unfolding write_labels
write_labels-Appends [] enc = extend-Appends (0 ∷ []) enc
write_labels-Appends (label ∷ labels) enc =
    let suffix = join_dot (label ∷ labels) in
    elim (Option-cases (get enc.name_offsets suffix)) [
      | inr (offset, met) ↦ rw (met, write_labels) (extend-Appends (u16_bytes (pointer offset)) enc)
      | inl new ↦
          let mid = extend (label_bytes label) (remember suffix enc) in
          let first : Appends enc mid = (
            label_bytes label,
            unfold extend in ap (λ b. b ++ label_bytes label) (remember-buf suffix enc),
          ) in
          rw (new, write_labels)
            (Appends-trans enc mid (write_labels labels mid) first
              (write_labels-Appends labels mid))
    ]

pub encode_qname-Appends :
    (qname : Text) (enc : DnsPacketEncoder) → Appends enc (encode_qname qname enc)
unfolding encode_qname
encode_qname-Appends qname enc = elim (Bool-cases (is_empty qname)) [
  | inl root ↦ rw (root, encode_qname) (extend-Appends (0 ∷ []) enc)
  | inr name ↦ rw (name, encode_qname) (write_labels-Appends (split_dot qname) enc)
]

pub extend_after :
    (bytes : List ℕ) (enc mid : DnsPacketEncoder) → Appends enc mid → Appends enc (extend bytes mid)
extend_after bytes enc mid h = Appends-trans enc mid (extend bytes mid) h (extend-Appends bytes mid)
