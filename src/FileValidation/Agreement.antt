-- ===== src/FileValidation/Agreement.antt =====
-- What backend/app/core/file_validation.py accepts.
use support_flow.Prelude.{
  ◌≡◌, refl, subst, ◌⊎◌, inl, inr, String, Bool, true, false, Option, none, some, List, [], ◌∷◌,
  ◌&&◌, ap, ◌∙◌, All, Exists, Exists-map, Bool-cases, arith,
}
use support_flow.Text.{Text, codes}
use support_flow.Text.Utf8.{Bytes}
use support_flow.Document.Extract.{text_eq}
use support_flow.FileValidation.{
  AllowedType, allowed, first_type, owns, type_of, announces, sniff, declared_type, bytes_agree,
  validate_as, validate,
}

text_eq-same : (s t : Text) → text_eq s t ≡ true → s ≡ t
unfolding text_eq
text_eq-same [] [] h = refl
text_eq-same [] (d ∷ t) h = cc
text_eq-same (c ∷ s) [] h = cc
text_eq-same (c ∷ s) (d ∷ t) h =
    let same : c ≡ d = ground (arith, h) in
    let rest : s ≡ t = text_eq-same s t (ground (arith, h)) in cc

-- The bytes begin with a signature of the table that belongs to the type's media type; or the type has no
-- signature, and they begin with none of the table.
abbrev pub IsAnnounced : AllowedType → Bytes → Type 0
IsAnnounced t head =
    Exists (λ u. (announces head u ≡ true) × (codes u.media_type ≡ codes t.media_type)) allowed
    ⊎ ((t.signatures ≡ []) × All (λ u. announces head u ≡ false) allowed)

first_type-true :
    (p : AllowedType → Bool) (ts : List AllowedType) (t : AllowedType)
    → first_type p ts ≡ some t
    → p t ≡ true
first_type-true p [] t h = absurd (cc h)
first_type-true p (u ∷ ts) t h = elim (Bool-cases (p u)) [
  | inl e ↦
      let h' : some u ≡ some t = rw e at h in
      let same : u ≡ t = cc in subst (λ (x : AllowedType). p x ≡ true) same e
  | inr e ↦ first_type-true p ts t (rw e at h)
]

-- The first type that passes is one of the table that passes.
first_type-Exists :
    (p : AllowedType → Bool) (ts : List AllowedType) (t : AllowedType)
    → first_type p ts ≡ some t
    → Exists (λ u. (p u ≡ true) × (u ≡ t)) ts
first_type-Exists p [] t h = absurd (cc h)
first_type-Exists p (u ∷ ts) t h = elim (Bool-cases (p u)) [
  | inl e ↦ let h' : some u ≡ some t = rw e at h in let same : u ≡ t = cc in inl (e, same)
  | inr e ↦ inr (first_type-Exists p ts t (rw e at h))
]

first_type-none :
    (p : AllowedType → Bool) (ts : List AllowedType)
    → first_type p ts ≡ none
    → All (λ t. p t ≡ false) ts
first_type-none p [] h = tt
first_type-none p (u ∷ ts) h = elim (Bool-cases (p u)) [
  | inl e ↦ let h' : some u ≡ none = rw e at h in absurd (cc h')
  | inr e ↦ (e, first_type-none p ts (rw e at h))
]

no_signatures :
    (t : AllowedType) (ss : List Bytes)
    → t.signatures ≡ ss
    → bytes_agree t none ≡ true
    → t.signatures ≡ []
no_signatures t [] e h = e
no_signatures t (s ∷ ss) e h = let h' : false ≡ true = rw e at h in absurd (cc h')

agree-IsAnnounced :
    (t : AllowedType) (head : Bytes) (o : Option AllowedType)
    → first_type (announces head) allowed ≡ o
    → bytes_agree t o ≡ true
    → IsAnnounced t head
agree-IsAnnounced t head none e h =
    inr (no_signatures t t.signatures refl h, first_type-none (announces head) allowed e)
agree-IsAnnounced t head (some u) e h =
    let same = text_eq-same (codes u.media_type) (codes t.media_type) h in
    inl (
      Exists-map (λ v. (announces head v ≡ true) × (v ≡ u))
        (λ v. (announces head v ≡ true) × (codes v.media_type ≡ codes t.media_type)) allowed
        (λ v k. (k.0, ap (λ (x : AllowedType). codes x.media_type) k.1 ∙ same))
        (first_type-Exists (announces head) allowed u e))

accept-Agrees :
    (o : Option AllowedType) (declared : Text) (detected : Option AllowedType) (t : AllowedType)
    → validate_as o declared detected ≡ some t
    → (o ≡ some t) × (declared ≡ codes t.media_type) × (bytes_agree t detected ≡ true)
accept-Agrees none declared detected t h = absurd (cc h)
accept-Agrees (some u) declared detected t h =
    elim (Bool-cases (text_eq declared (codes u.media_type) && bytes_agree u detected)) [
      | inl good ↦
          let h' : some u ≡ some t = rw good at h in
          let same : u ≡ t = cc in
          subst
            (λ (x : AllowedType).
              (some u ≡ some x) × (declared ≡ codes x.media_type) × (bytes_agree x detected ≡ true))
            same
            (
              refl,
              text_eq-same declared (codes u.media_type) (ground (arith, good)),
              ground (arith, good),
            )
      | inr bad ↦ let h' : Option.none ≡ some t = rw bad at h in absurd (cc h')
    ]

-- An upload is accepted only as a type that owns its extension, when the declared type is that one and the
-- bytes begin with a signature that the table of allowed types has for that media type; or, where the type has
-- no signature, when the bytes begin with no signature of the table.
pub validate-IsAnnounced :
    (extension : String) (declared : Option Text) (head : Bytes) (t : AllowedType)
    → validate extension declared head ≡ some t
    → (owns extension t ≡ true) × (declared_type declared ≡ codes t.media_type) × IsAnnounced t head
unfolding validate type_of sniff
validate-IsAnnounced extension declared head t h =
    let (owner, named', agreed) =
      accept-Agrees (type_of extension) (declared_type declared) (sniff head) t h in
    (
      first_type-true (owns extension) allowed t owner,
      named',
      agree-IsAnnounced t head (sniff head) refl agreed,
    )
