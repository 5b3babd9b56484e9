-- ===== src/Dns/Encoder/Strings.antt =====
-- The character-strings of src/dns/encoder.rs against the parser of src/dns/packet.rs.
use mini_dns.Prelude.{
  ℕ, zero, suc, ◌+◌, ◌≤◌, ◌<◌, ◌≡◌, refl, sym, ap, ◌∙◌, true, false, List, [], ◌∷◌, ◌++◌, arith,
  ltb, length, take, drop, min, length-append, length-take, length-drop, take-append-drop,
}
use mathlib.Core.List.{append-nil, append_assoc}
use mini_dns.Text.{Text, is_empty}
use mini_dns.Text.Utf8.{IsAscii, from_utf8_lossy-IsAscii}
use mini_dns.Dns.Error.{ok, ◌>>=◌, ◌>>◌, fail_if}
use mini_dns.Dns.Buffer.{slice}
use mini_dns.Dns.Buffer.Append.{byte_at-append, slice_behind}
use mini_dns.Dns.Parse.Rdata.{parse_character_strings, strings_loop}
use mini_dns.Dns.Encoder.{chunk_bytes, character_strings}

take-IsAscii : (n : ℕ) (s : List ℕ) → IsAscii s → IsAscii (take n s)
take-IsAscii zero s h = tt
take-IsAscii (suc n) [] h = tt
take-IsAscii (suc n) (c ∷ s) h = (h.0, take-IsAscii n s h.1)

drop-IsAscii : (n : ℕ) (s : List ℕ) → IsAscii s → IsAscii (drop n s)
drop-IsAscii zero s h = h
drop-IsAscii (suc n) [] h = tt
drop-IsAscii (suc n) (c ∷ s) h = drop-IsAscii n s h.1

-- A round of the loop takes one string.
string_round :
    (fuel : ℕ) (pre part more : List ℕ) (acc : Text)
    → IsAscii part
    → strings_loop (suc fuel) (pre ++ (length part ∷ (part ++ more))) acc (length pre)
      ≡ strings_loop fuel
          (pre ++ (length part ∷ (part ++ more)))
          (acc ++ part)
          (length pre + 1 + length part)
unfolding strings_loop
string_round fuel pre part more acc ascii =
    let bytes = pre ++ (length part ∷ (part ++ more)) in
    let total : length bytes ≡ length pre + suc (length part + length more) =
      omega (arith, length-append pre (length part ∷ (part ++ more)), length-append part more) in
    let inside : ltb (length pre) (length bytes) ≡ true = ground arith in
    let whole : ltb (length bytes) (length pre + 1 + length part) ≡ false = ground arith in
    let cut : slice bytes (length pre + 1) (length pre + 1 + length part) ≡ ok part =
      slice_behind pre (length part) part more in
    rw
      (
        inside,
        strings_loop,
        byte_at-append pre (length part) (part ++ more),
        ◌>>=◌,
        whole,
        ◌>>◌,
        fail_if,
        cut,
        from_utf8_lossy-IsAscii part ascii,
      )
      refl

loop_end :
    (fuel : ℕ) (pre : List ℕ) (acc : Text)
    → strings_loop (suc fuel) (pre ++ []) acc (length pre) ≡ ok (acc ++ [])
unfolding strings_loop
loop_end fuel pre acc =
    let done : ltb (length pre) (length (pre ++ [])) ≡ false = ground (arith, append-nil pre) in
    rw (done, strings_loop, append-nil acc) refl

pub chunk :
    (n b : ℕ) (bs : List ℕ)
    → chunk_bytes (suc n) (b ∷ bs)
      ≡ length (take 255 (b ∷ bs)) ∷ (take 255 (b ∷ bs) ++ chunk_bytes n (drop 255 (b ∷ bs)))
unfolding chunk_bytes
chunk n b bs =
    let e : length (take 255 (b ∷ bs)) ≡ min (length (b ∷ bs)) 255 =
      omega (arith, length-take 255 (b ∷ bs)) in
    rw e refl

loop-chunks :
    (n fuel : ℕ) (pre rest : List ℕ) (acc : Text)
    → length rest ≤ n
    → n < fuel
    → IsAscii rest
    → strings_loop fuel (pre ++ chunk_bytes n rest) acc (length pre) ≡ ok (acc ++ rest)
unfolding chunk_bytes
loop-chunks n zero pre rest acc h k ascii = absurd (omega arith)
loop-chunks zero (suc fuel) pre [] acc h k ascii = loop_end fuel pre acc
loop-chunks zero (suc fuel) pre (b ∷ bs) acc h k ascii = absurd (omega arith)
loop-chunks (suc n) (suc fuel) pre [] acc h k ascii = loop_end fuel pre acc
loop-chunks (suc n) (suc fuel) pre (b ∷ bs) acc h k ascii =
    let part = take 255 (b ∷ bs) in
    let more = drop 255 (b ∷ bs) in
    let next = pre ++ (length part ∷ part) in
    let at : length pre + 1 + length part ≡ length next =
      omega (arith, length-append pre (length part ∷ part)) in
    let split : pre ++ (length part ∷ (part ++ chunk_bytes n more)) ≡ next ++ chunk_bytes n more =
      sym (append_assoc pre (length part ∷ part) (chunk_bytes n more)) in
    let rest : strings_loop fuel (next ++ chunk_bytes n more) (acc ++ part) (length next)
        ≡ ok ((acc ++ part) ++ more) =
      loop-chunks n fuel next more (acc ++ part) (omega (arith, length-drop 255 (b ∷ bs)))
        (omega arith) (drop-IsAscii 255 (b ∷ bs) ascii) in
    ap (λ bytes. strings_loop (suc fuel) (pre ++ bytes) acc (length pre)) (chunk n b bs)
    ∙ string_round fuel pre part (chunk_bytes n more) acc (take-IsAscii 255 (b ∷ bs) ascii)
    ∙ rw (at, split) rest
    ∙ ap ok (append_assoc acc part more ∙ ap (λ s. acc ++ s) (take-append-drop 255 (b ∷ bs)))

chunks-longer :
    (n : ℕ) (rest : List ℕ) → length rest ≤ n → length rest ≤ length (chunk_bytes n rest)
chunks-longer zero [] h = omega arith
chunks-longer zero (b ∷ bs) h = absurd (omega arith)
chunks-longer (suc n) [] h = omega arith
chunks-longer (suc n) (b ∷ bs) h =
    let part = take 255 (b ∷ bs) in
    let more = drop 255 (b ∷ bs) in
    let cut : length part + length more ≡ length (b ∷ bs) =
      sym (length-append part more) ∙ ap length (take-append-drop 255 (b ∷ bs)) in
    let shorter : length more ≤ length bs = omega (arith, length-drop 255 (b ∷ bs)) in
    rw (chunk n b bs)
      (omega (arith, length-append part (chunk_bytes n more), chunks-longer n more (omega arith)))

-- The strings that the encoder makes of an ASCII text, of whatever length, parse back to the text.
pub parse_character_strings-character_strings :
    (text : Text) → IsAscii text → parse_character_strings (character_strings text) ≡ ok text
unfolding parse_character_strings character_strings is_empty
parse_character_strings-character_strings [] ascii = refl
parse_character_strings-character_strings (c ∷ cs) ascii =
    loop-chunks (length (c ∷ cs)) (length (chunk_bytes (length (c ∷ cs)) (c ∷ cs)) + 1) [] (c ∷ cs)
      [] (omega arith) (omega (arith, chunks-longer (length (c ∷ cs)) (c ∷ cs) (omega arith))) ascii
