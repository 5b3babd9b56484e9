-- ===== src/Dns/Encoder/Remembered.antt =====
-- What `encode_qname` of src/dns/encoder.rs remembers while it writes a name: the suffixes written
-- are spelled at their offsets once the rest of the name is.
use mini_dns.Prelude.{
  ℕ, suc, ◌+◌, ◌≤◌, ◌<◌, ◌≡◌, refl, sym, ap, ◌∙◌, ◌⊎◌, inl, inr, some, List, [], ◌∷◌, ◌++◌, arith,
  leb, leb→le, length, length-append, Bool-cases, Option-cases,
}
use mathlib.Core.List.{append-nil, append_assoc}
use mathlib.Core.Path.{subst}
use mini_dns.Text.{Text, dot, text_eq, text_eq_iff, join_dot}
use mini_dns.Dns.Encoder.{
  DnsPacketEncoder, extend, get, label_bytes, remember, pointer, u16_bytes, write_labels,
}
use mini_dns.Dns.Encoder.Names.{IsLabel, AreLabels, label_bytes-IsLabel}
use mini_dns.Dns.Encoder.Appends.{write_labels-Appends, remember-buf}
use mini_dns.Dns.Encoder.Spelled.{Spelled, root, label, jump, Spelled-append, Spelled-suc}

-- At the offset, which a pointer can hold, the name is spelled.
abbrev pub Spells : List ℕ → ℕ → Text → ℕ → Type 0
Spells buf depth name offset =
    (offset < 0x4000)
    × ((end : ℕ) × (labels : List Text) × (join_dot labels ≡ name)
        × Spelled buf depth offset end labels)

-- Every suffix remembered is spelled at its offset, with at most `depth` pointers on the way.
abbrev pub IsEncoder : ℕ → DnsPacketEncoder → Type 0
IsEncoder depth enc =
    (name : Text) (offset : ℕ)
    → get enc.name_offsets name ≡ some offset
    → Spells enc.buf depth name offset

-- An offset remembered for a name that is being written: it is spelled once the rest is.
abbrev pub IsPending : ℕ → DnsPacketEncoder → List Text → Text → ℕ → Type 0
IsPending depth enc labels name offset =
    (length (join_dot labels) < length name)
    × ((buf more : List ℕ) (end : ℕ) (ls : List Text)
        → buf ≡ enc.buf ++ more
        → join_dot ls ≡ join_dot labels
        → Spelled buf (suc depth) (length enc.buf) end ls
        → Spells buf (suc depth) name offset)

abbrev pub Writing : ℕ → DnsPacketEncoder → List Text → Type 0
Writing depth enc labels =
    (name : Text) (offset : ℕ)
    → get enc.name_offsets name ≡ some offset
    → Spells enc.buf depth name offset ⊎ IsPending depth enc labels name offset

Spells-append :
    (buf more : List ℕ) (depth : ℕ) (name : Text) (offset : ℕ)
    → Spells buf depth name offset
    → Spells (buf ++ more) depth name offset
Spells-append buf more depth name offset (near, (end, labels, e, s)) =
    (near, (end, labels, e, Spelled-append more s))

Spells-suc :
    (buf : List ℕ) (depth : ℕ) (name : Text) (offset : ℕ)
    → Spells buf depth name offset
    → Spells buf (suc depth) name offset
Spells-suc buf depth name offset (near, (end, labels, e, s)) =
    (near, (end, labels, e, Spelled-suc s))

pub Spelled-AreLabels :
    {buf : List ℕ} {depth at end : ℕ} {labels : List Text}
    → Spelled buf depth at end labels
    → AreLabels labels
Spelled-AreLabels (root pre post e at end) = tt
Spelled-AreLabels (label pre name post e at fine rest) = (fine, Spelled-AreLabels rest)
Spelled-AreLabels (jump pre post e at end near rest) = Spelled-AreLabels rest

join_dot-longer :
    (l : Text) (ls : List Text) → IsLabel l → length (join_dot ls) < length (join_dot (l ∷ ls))
unfolding join_dot
join_dot-longer l [] h = h.0
join_dot-longer l (m ∷ ms) h = omega (arith, length-append l (dot ∷ join_dot (m ∷ ms)))

join_dot-cons :
    (l : Text) (ls ms : List Text)
    → AreLabels ls
    → AreLabels ms
    → join_dot ls ≡ join_dot ms
    → join_dot (l ∷ ls) ≡ join_dot (l ∷ ms)
unfolding join_dot
join_dot-cons l [] [] h k e = refl
join_dot-cons l [] (m ∷ ms) h k e = absurd (omega (arith, ap length e, join_dot-longer m ms k.0))
join_dot-cons l (n ∷ ns) [] h k e = absurd (omega (arith, ap length e, join_dot-longer n ns h.0))
join_dot-cons l (n ∷ ns) (m ∷ ms) h k e = ap (λ s. l ++ (dot ∷ s)) e

-- What is written, and what is remembered, once a name is there.
abbrev pub Written : ℕ → DnsPacketEncoder → List Text → DnsPacketEncoder → Type 0
Written depth enc labels done =
    ((ls : List Text) × (join_dot ls ≡ join_dot labels)
      × Spelled done.buf (suc depth) (length enc.buf) (length done.buf) ls)
    × IsEncoder (suc depth) done

-- With the bytes appended that spell the rest, nothing is pending.
settled :
    (depth : ℕ) (enc : DnsPacketEncoder) (labels ls : List Text) (bytes : List ℕ)
    → Writing depth enc labels
    → join_dot ls ≡ join_dot labels
    → Spelled (enc.buf ++ bytes) (suc depth) (length enc.buf) (length (enc.buf ++ bytes)) ls
    → Written depth enc labels (extend bytes enc)
unfolding extend
settled depth enc labels ls bytes writing e s = (
  (ls, e, s),
  λ name offset met. elim (writing name offset met) [
    | inl done ↦
        Spells-suc (enc.buf ++ bytes) depth name offset
          (Spells-append enc.buf bytes depth name offset done)
    | inr pending ↦ pending.1 (enc.buf ++ bytes) bytes (length (enc.buf ++ bytes)) ls refl e s
  ],
)

pub write_root :
    (depth : ℕ) (enc : DnsPacketEncoder)
    → Writing depth enc []
    → Written depth enc [] (extend (0 ∷ []) enc)
write_root depth enc writing =
    settled depth enc [] [] (0 ∷ []) writing refl
      (root enc.buf [] refl refl (length-append enc.buf (0 ∷ [])))

-- The rest of the name is already there: a pointer to it ends the name.
write_pointer :
    (depth : ℕ) (enc : DnsPacketEncoder) (labels : List Text) (offset : ℕ)
    → Writing depth enc labels
    → get enc.name_offsets (join_dot labels) ≡ some offset
    → Written depth enc labels (extend (u16_bytes (pointer offset)) enc)
write_pointer depth enc labels offset writing met = elim (writing (join_dot labels) offset met) [
  | inl (near, (end, ls, e, s)) ↦
      settled depth enc labels ls (u16_bytes (pointer offset)) writing e (
        jump enc.buf [] (ap (λ b. enc.buf ++ b) (sym (append-nil (u16_bytes (pointer offset)))))
          refl (length-append enc.buf (u16_bytes (pointer offset))) near
          (Spelled-append (u16_bytes (pointer offset)) s))
  | inr (longer, later) ↦ absurd (omega arith)
]

module _ (depth : ℕ) (enc : DnsPacketEncoder) (name : Text) (labels : List Text)
    (fine : IsLabel name) (rest_fine : AreLabels labels) where
  -- The encoder behind the first label.
  abbrev behind : DnsPacketEncoder
  behind = extend (label_bytes name) (remember (join_dot (name ∷ labels)) enc)

  behind-buf : behind.buf ≡ enc.buf ++ (length name ∷ name)
  unfolding extend
  behind-buf =
      ap (λ b. b ++ label_bytes name) (remember-buf (join_dot (name ∷ labels)) enc)
      ∙ ap (λ b. enc.buf ++ b) (label_bytes-IsLabel name fine)

  -- With the rest spelled behind the label, the whole is spelled.
  prepend :
      (buf more : List ℕ) (end : ℕ) (ls : List Text)
      → buf ≡ behind.buf ++ more
      → Spelled buf (suc depth) (length behind.buf) end ls
      → Spelled buf (suc depth) (length enc.buf) end (name ∷ ls)
  prepend buf more end ls e s =
      let count : length behind.buf ≡ length enc.buf + 1 + length name =
        omega (arith, ap length behind-buf, length-append enc.buf (length name ∷ name)) in
      label enc.buf name more
        (e ∙ ap (λ b. b ++ more) behind-buf ∙ append_assoc enc.buf (length name ∷ name) more) refl
        fine (subst (λ n. Spelled buf (suc depth) n end ls) count s)

  -- What was remembered before is still spelled, or still waits for the rest.
  older :
      (n : Text) (offset : ℕ)
      → Spells enc.buf depth n offset ⊎ IsPending depth enc (name ∷ labels) n offset
      → Spells behind.buf depth n offset ⊎ IsPending depth behind labels n offset
  older n offset (inl done) = inl (
      subst (λ b. Spells b depth n offset) (sym behind-buf)
        (Spells-append enc.buf (length name ∷ name) depth n offset done))
  older n offset (inr (longer, later)) = inr (
    omega (arith, join_dot-longer name labels fine),
    λ buf more end ls e same s.
        later buf ((length name ∷ name) ++ more) end (name ∷ ls)
          (e ∙ ap (λ b. b ++ more) behind-buf ∙ append_assoc enc.buf (length name ∷ name) more)
          (join_dot-cons name ls labels (Spelled-AreLabels s) rest_fine same)
          (prepend buf more end ls e s),
  )

  -- The name itself waits for its rest.
  newest :
      length enc.buf ≤ 0x3FFF
      → IsPending depth behind labels (join_dot (name ∷ labels)) (length enc.buf)
  newest near = (
    join_dot-longer name labels fine,
    λ buf more end ls e same s. (
      omega arith,
      (
        end,
        name ∷ ls,
        join_dot-cons name ls labels (Spelled-AreLabels s) rest_fine same,
        prepend buf more end ls e s,
      ),
    ),
  )

  remembered :
      (n : Text) (offset : ℕ)
      → get behind.name_offsets n ≡ some offset
      → (get enc.name_offsets n ≡ some offset)
        ⊎ ((n ≡ join_dot (name ∷ labels)) × (offset ≡ length enc.buf) × (length enc.buf ≤ 0x3FFF))
  unfolding extend remember get
  remembered n offset met =
      let suffix = join_dot (name ∷ labels) in
      elim (Bool-cases (leb (length enc.buf) 0x3FFF)) [
        | inr far ↦ inl (ground (arith, met))
        | inl near ↦ elim (Bool-cases (text_eq suffix n)) [
          | inr other ↦ inl (ground (arith, met))
          | inl same ↦ inr (
            sym ((text_eq_iff suffix n).0 same),
            ground (arith, met),
            leb→le (length enc.buf) 0x3FFF near,
          )
        ]
      ]

  behind-Writing : Writing depth enc (name ∷ labels) → Writing depth behind labels
  behind-Writing writing n offset met = elim (remembered n offset met) [
    | inl old ↦ older n offset (writing n offset old)
    | inr (e, e', near) ↦ inr (
        subst (λ o. IsPending depth behind labels n o) (sym e')
          (subst (λ m. IsPending depth behind labels m (length enc.buf)) (sym e) (newest near)))
  ]

  -- The rest written, the whole is.
  write_label :
      Written depth behind labels (write_labels labels behind)
      → Written depth enc (name ∷ labels) (write_labels labels behind)
  write_label ((ls, e, s), entries) =
      let (more, e') = write_labels-Appends labels behind in
      (
        (
          name ∷ ls,
          join_dot-cons name ls labels (Spelled-AreLabels s) rest_fine e,
          prepend (write_labels labels behind).buf more _ ls e' s,
        ),
        entries,
      )

pub write_labels-Written :
    (labels : List Text) (depth : ℕ) (enc : DnsPacketEncoder)
    → AreLabels labels
    → Writing depth enc labels
    → Written depth enc labels (write_labels labels enc)
unfolding write_labels
write_labels-Written [] depth enc fine writing = write_root depth enc writing
write_labels-Written (name ∷ labels) depth enc fine writing =
    let suffix = join_dot (name ∷ labels) in
    elim (Option-cases (get enc.name_offsets suffix)) [
      | inr (offset, met) ↦
          rw (met, write_labels) (write_pointer depth enc (name ∷ labels) offset writing met)
      | inl new ↦
          rw (new, write_labels)
            (write_label depth enc name labels fine.0 fine.1 (
              write_labels-Written labels depth (behind depth enc name labels fine.0 fine.1) fine.1
                (behind-Writing depth enc name labels fine.0 fine.1 writing)))
    ]
