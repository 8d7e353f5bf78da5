-- ===== src/Text/Utf8.antt =====
-- `bytes.decode("utf-8")`, which refuses overlong forms, surrogates and what lies above U+10FFFF.
use support_flow.Prelude.{
  ℕ, zero, suc, ◌+◌, ◌-◌, ◌*◌, ◌/◌, ◌%◌, ◌≤◌, ◌<◌, ◌≡◌, refl, ap, ◌∙◌, ◌⊎◌, Option, none, some, inl,
  inr, List, [], ◌∷◌, ◌++◌, ◌==◌, ltb, All, Bool-cases, arith, if◌then◌else◌,
}
use support_flow.Text.{Text, within}

abbrev pub Bytes : Type 0
Bytes = List ℕ

-- Between two bytes: how many of a character's bytes are to come, its value so far, and the range of the next.
pub record Decoding : Type 0 where
  pub need : ℕ
  pub value : ℕ
  pub low : ℕ
  pub high : ℕ

abbrev pub between : Decoding
between = record { need = 0; value = 0; low = 128; high = 191 }

-- After a first byte that is not ASCII.
abbrev lead : ℕ → Option Decoding
lead b =
    if within 194 223 b
    then some (record { need = 1; value = b - 192; low = 128; high = 191 })
    else if within 224 239 b
    then some (record {
      need = 2;
      value = b - 224;
      low = if b == 224 then 160 else 128;
      high = if b == 237 then 159 else 191;
    })
    else if within 240 244 b
    then some (record {
      need = 3;
      value = b - 240;
      low = if b == 240 then 144 else 128;
      high = if b == 244 then 143 else 191;
    })
    else none

-- The character that a byte completes, if any, and the state after it; `none` refuses the byte.
unfoldable pub take_byte : Decoding → ℕ → Option (Option ℕ × Decoding)
take_byte d b = elim d.need [
  | zero ↦
      if ltb b 128
      then some (some b, between)
      else elim (lead b) [ none ↦ none | some d' ↦ some (none, d') ]
  | suc zero ↦
      if within d.low d.high b then some (some (d.value * 64 + (b - 128)), between) else none
  | suc (suc n) ↦
      if within d.low d.high b
      then some
          (none, record { need = suc n; value = d.value * 64 + (b - 128); low = 128; high = 191 })
      else none
]

abbrev emit_char : Option ℕ → Text → Text
emit_char none s = s
emit_char (some c) s = c ∷ s

unfoldable pub decode_from : Decoding → Bytes → Option Text
unfolding take_byte
decode_from d [] = if d.need == 0 then some [] else none
decode_from d (b ∷ bytes) = elim (take_byte d b) [
  | none ↦ none
  | some (c, d') ↦ elim (decode_from d' bytes) [ none ↦ none | some s ↦ some (emit_char c s) ]
]

unfoldable pub decode_utf8 : Bytes → Option Text
unfolding decode_from
decode_utf8 bytes = decode_from between bytes

-- UTF-8, as it is defined.
abbrev encode_char : ℕ → Bytes
encode_char c =
    if ltb c 128
    then c ∷ []
    else if ltb c 2048
    then (192 + c / 64) ∷ (128 + c % 64) ∷ []
    else if ltb c 65536
    then (224 + c / 4096) ∷ (128 + (c / 64) % 64) ∷ (128 + c % 64) ∷ []
    else (240 + c / 262144) ∷ (128 + (c / 4096) % 64) ∷ (128 + (c / 64) % 64) ∷ (128 + c % 64) ∷ []

unfoldable pub encode_utf8 : Text → Bytes
encode_utf8 [] = []
encode_utf8 (c ∷ s) = encode_char c ++ encode_utf8 s

-- A code point that is not a surrogate.
abbrev pub IsScalar : ℕ → Type 0
IsScalar c = (c < 1114112) × ((c < 55296) ⊎ (57344 ≤ c))

abbrev then_emit : Option ℕ → Option Text → Option Text
then_emit c none = none
then_emit c (some s) = some (emit_char c s)

decode_from-step :
    (d d' : Decoding) (b : ℕ) (c : Option ℕ) (bytes : Bytes)
    → take_byte d b ≡ some (c, d')
    → decode_from d (b ∷ bytes) ≡ then_emit c (decode_from d' bytes)
unfolding decode_from
decode_from-step d d' b c bytes h =
    rw (h, decode_from) (elim (decode_from d' bytes) [ none ↦ refl | some s ↦ refl ])

-- What the second byte of a long form may be, at its first byte.
abbrev second : ℕ → ℕ → ℕ → ℕ → Decoding
second need value low high = record { need = need; value = value; low = low; high = high }

first_of_one : (c : ℕ) → c < 128 → take_byte between c ≡ some (some c, between)
unfolding take_byte
first_of_one c h = ground arith

first_of_two :
    (v : ℕ) → 2 ≤ v → v < 32 → take_byte between (192 + v) ≡ some (none, second 1 v 128 191)
unfolding take_byte
first_of_two v h k = ground arith

first_of_three :
    (v : ℕ)
    → v < 16
    → take_byte between (224 + v)
      ≡ some (
        none,
        second 2 v (if 224 + v == 224 then 160 else 128) (if 224 + v == 237 then 159 else 191),
      )
unfolding take_byte
first_of_three v h = ground arith

first_of_four :
    (v : ℕ)
    → v < 5
    → take_byte between (240 + v)
      ≡ some (
        none,
        second 3 v (if 240 + v == 240 then 144 else 128) (if 240 + v == 244 then 143 else 191),
      )
unfolding take_byte
first_of_four v h = ground arith

next_byte :
    (n v low high b : ℕ)
    → low ≤ 128 + b
    → 128 + b ≤ high
    → take_byte (second (suc (suc n)) v low high) (128 + b)
      ≡ some (none, second (suc n) (v * 64 + b) 128 191)
unfolding take_byte
next_byte n v low high b h k = ground arith

last_byte :
    (v low high b : ℕ)
    → low ≤ 128 + b
    → 128 + b ≤ high
    → take_byte (second 1 v low high) (128 + b) ≡ some (some (v * 64 + b), between)
unfolding take_byte
last_byte v low high b h k = ground arith

then_emit-none : (s : Option Text) → then_emit none s ≡ s
then_emit-none none = refl
then_emit-none (some s) = refl

silent_step :
    (d d' : Decoding) (b : ℕ) (bytes : Bytes)
    → take_byte d b ≡ some (none, d')
    → decode_from d (b ∷ bytes) ≡ decode_from d' bytes
silent_step d d' b bytes h =
    decode_from-step d d' b none bytes h ∙ then_emit-none (decode_from d' bytes)

-- The last byte of a character whose value is `c`.
closing_step :
    (c v low high b : ℕ) (bytes : Bytes)
    → low ≤ 128 + b
    → 128 + b ≤ high
    → v * 64 + b ≡ c
    → decode_from (second 1 v low high) ((128 + b) ∷ bytes)
      ≡ then_emit (some c) (decode_from between bytes)
closing_step c v low high b bytes h k e =
    decode_from-step (second 1 v low high) between (128 + b) (some (v * 64 + b)) bytes
      (last_byte v low high b h k)
    ∙ ap (λ x. then_emit (some x) (decode_from between bytes)) e

-- What reading a character's bytes gives.
abbrev Reads : ℕ → Bytes → Bytes → Type 0
Reads c encoded bytes =
    decode_from between (encoded ++ bytes) ≡ then_emit (some c) (decode_from between bytes)

decode-two :
    (c : ℕ) (bytes : Bytes)
    → 128 ≤ c
    → c < 2048
    → Reads c ((192 + c / 64) ∷ (128 + c % 64) ∷ []) bytes
decode-two c bytes h k =
    silent_step between _ (192 + c / 64) _ (first_of_two (c / 64) (omega arith) (omega arith))
    ∙ closing_step c (c / 64) 128 191 (c % 64) bytes (omega arith) (omega arith) (omega arith)

decode-three :
    (c : ℕ) (bytes : Bytes)
    → 2048 ≤ c
    → c < 65536
    → ((c < 55296) ⊎ (57344 ≤ c))
    → Reads c ((224 + c / 4096) ∷ (128 + (c / 64) % 64) ∷ (128 + c % 64) ∷ []) bytes
decode-three c bytes h k scalar =
    silent_step between _ (224 + c / 4096) _ (first_of_three (c / 4096) (omega arith))
    ∙ silent_step _ _ (128 + (c / 64) % 64) _ (
        next_byte 0 (c / 4096) (if 224 + c / 4096 == 224 then 160 else 128)
          (if 224 + c / 4096 == 237 then 159 else 191) ((c / 64) % 64) (ground (arith, h))
          (ground (arith, scalar)))
    ∙ closing_step c (c / 4096 * 64 + (c / 64) % 64) 128 191 (c % 64) bytes (omega arith)
        (omega arith) (omega arith)

decode-four :
    (c : ℕ) (bytes : Bytes)
    → 65536 ≤ c
    → c < 1114112
    → Reads c
        ((240 + c / 262144) ∷ (128 + (c / 4096) % 64) ∷ (128 + (c / 64) % 64) ∷ (128 + c % 64) ∷ [])
        bytes
decode-four c bytes h k =
    silent_step between _ (240 + c / 262144) _ (first_of_four (c / 262144) (omega arith))
    ∙ silent_step _ _ (128 + (c / 4096) % 64) _ (
        next_byte 1 (c / 262144) (if 240 + c / 262144 == 240 then 144 else 128)
          (if 240 + c / 262144 == 244 then 143 else 191) ((c / 4096) % 64) (ground (arith, h))
          (ground (arith, k)))
    ∙ silent_step _ _ (128 + (c / 64) % 64) _ (
        next_byte 0 (c / 262144 * 64 + (c / 4096) % 64) 128 191 ((c / 64) % 64) (omega arith)
          (omega arith))
    ∙ closing_step c ((c / 262144 * 64 + (c / 4096) % 64) * 64 + (c / 64) % 64) 128 191 (c % 64)
        bytes (omega arith) (omega arith) (omega arith)

decode-encode_char : (c : ℕ) (bytes : Bytes) → IsScalar c → Reads c (encode_char c) bytes
decode-encode_char c bytes h = elim (Bool-cases (ltb c 128)) [
  | inl one ↦
      rw one
        (decode_from-step between between c (some c) bytes (first_of_one c (ground (arith, one))))
  | inr more ↦ elim (Bool-cases (ltb c 2048)) [
    | inl two ↦ rw (more, two) (decode-two c bytes (ground (arith, more)) (ground (arith, two)))
    | inr more' ↦ elim (Bool-cases (ltb c 65536)) [
      | inl three ↦
          rw (more, more', three)
            (decode-three c bytes (ground (arith, more')) (ground (arith, three)) h.1)
      | inr four ↦ rw (more, more', four) (decode-four c bytes (ground (arith, four)) h.0)
    ]
  ]
]

-- UTF-8 is decoded to the text that was encoded.
pub decode_utf8-encode_utf8 : (s : Text) → All IsScalar s → decode_utf8 (encode_utf8 s) ≡ some s
unfolding decode_utf8 encode_utf8
decode_utf8-encode_utf8 [] h = unfold decode_from in refl
decode_utf8-encode_utf8 (c ∷ s) h =
    decode-encode_char c (encode_utf8 s) h.0
    ∙ ap (then_emit (some c)) (decode_utf8-encode_utf8 s h.1)
