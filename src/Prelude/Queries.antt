-- ===== src/Prelude/Queries.antt =====
-- What tests, selections and updates of a table say of each other.
use Prim.Native.Nat.{ℕ, zero, suc, ◌+◌, ◌≤◌}
use mathlib.Core.Path.{◌≡◌, refl, ap}
use mathlib.Core.Logic.{◌⊎◌, inl, inr}
use mathlib.Core.Bool.{Bool, true, false, ◌&&◌}
use mathlib.Core.Option.{none, some}
use mathlib.Core.List.{List, [], ◌∷◌, ◌++◌, map}
use native.Mathlib.Omega.{arith}
use support_flow.Prelude.Tests.{◌==◌, Bool-cases}
use support_flow.Prelude.Lists.{
  All, All-map, length, take, select, find?, update_where, any_of, elem,
}

module _ {ℓ} {A : Type ℓ} where
  pub any_of_mono :
      (p q : A → Bool) (xs : List A)
      → ((x : A) → p x ≡ true → q x ≡ true)
      → any_of p xs ≡ true
      → any_of q xs ≡ true
  any_of_mono p q [] f h = h
  any_of_mono p q (x ∷ xs) f h = elim (Bool-cases (p x)) [
    | inl e ↦ rw (f x e) refl
    | inr e ↦ ground (arith, any_of_mono p q xs f (rw e at h))
  ]

  pub any_of-select :
      (p q : A → Bool) (xs : List A) → any_of p (select q xs) ≡ any_of (λ x. p x && q x) xs
  any_of-select p q [] = refl
  any_of-select p q (x ∷ xs) = ground (arith, any_of-select p q xs)

  pub any_of-update_where :
      (p q : A → Bool) (f : A → A) (xs : List A)
      → ((x : A) → p (f x) ≡ p x)
      → any_of p (update_where q f xs) ≡ any_of p xs
  any_of-update_where p q f [] same = refl
  any_of-update_where p q f (x ∷ xs) same = elim (Bool-cases (q x)) [
    | inl e ↦ rw (e, same x, any_of-update_where p q f xs same) refl
    | inr e ↦ rw (e, any_of-update_where p q f xs same) refl
  ]

module _ {ℓ} {A : Type ℓ} where
  -- What every row that passes a test says.
  pub any_of-says :
      (p : A → Bool) (b : Bool) (xs : List A)
      → ((x : A) → p x ≡ true → b ≡ true)
      → any_of p xs ≡ true
      → b ≡ true
  any_of-says p b [] f h = cc
  any_of-says p b (x ∷ xs) f h = elim (Bool-cases (p x)) [
    | inl e ↦ f x e
    | inr e ↦ any_of-says p b xs f (rw e at h)
  ]

  pub update_where-none :
      (p : A → Bool) (f : A → A) (xs : List A)
      → All (λ x. p x ≡ false) xs
      → update_where p f xs ≡ xs
  update_where-none p f [] h = refl
  update_where-none p f (x ∷ xs) h =
      rw (h.0) (ap (λ (r : List A). x ∷ r) (update_where-none p f xs h.1))

module _ {ℓ} {A : Type ℓ} where
  pub any_of-find? :
      (p q : A → Bool) (xs : List A) {x : A} → find? p xs ≡ some x → q x ≡ true → any_of q xs ≡ true
  any_of-find? p q [] h t = cc
  any_of-find? p q (y ∷ xs) {x} h t = elim (Bool-cases (p y)) [
    | inl e ↦ let e' : some y ≡ some x = rw e at h in let y≡x : y ≡ x = cc in rw (ap q y≡x, t) refl
    | inr e ↦ ground (arith, any_of-find? p q xs (rw e at h) t)
  ]

  pub select_kept : (p : A → Bool) (xs : List A) → All (λ x. p x ≡ true) xs → select p xs ≡ xs
  select_kept p [] h = refl
  select_kept p (x ∷ xs) h = rw (h.0) (ap (λ (r : List A). x ∷ r) (select_kept p xs h.1))

  -- A row that is written over every row with its key.
  pub All-overwrite {κ} :
      (key : A → ℕ) (P : A → Type κ) (k : ℕ) (d : A) (xs : List A)
      → P d
      → key d ≡ k
      → All (λ x. (key x == k) ≡ true → P x) (update_where (λ x. key x == key d) (λ _. d) xs)
  All-overwrite key P k d [] h e = tt
  All-overwrite key P k d (x ∷ xs) h e = elim (Bool-cases (key x == key d)) [
    | inl same ↦ rw same (λ _. h, All-overwrite key P k d xs h e)
    | inr other ↦
        rw other (λ here. absurd (ground (arith, other, here, e)), All-overwrite key P k d xs h e)
  ]

-- A selected row is among the keys of the selection.
pub All-elem :
    {A : Type 0} (key : A → ℕ) (p : A → Bool) (xs : List A)
    → All (λ x. p x ≡ true → elem (key x) (map key (select p xs)) ≡ true) xs
All-elem key p [] = tt
All-elem key p (x ∷ xs) = elim (Bool-cases (p x)) [
  | inl e ↦ (
    λ _. ground (arith, e),
    All-map (λ y. p y ≡ true → elem (key y) (map key (select p xs)) ≡ true) _ xs
        (λ y k t. ground (arith, k t, e)) (All-elem key p xs),
  )
  | inr e ↦ (
    λ t. cc (e, t),
    All-map (λ y. p y ≡ true → elem (key y) (map key (select p xs)) ≡ true) _ xs
        (λ y k t. rw e (k t)) (All-elem key p xs),
  )
]

pub elem-map :
    {A : Type 0} (key : A → ℕ) (k : ℕ) (xs : List A)
    → elem k (map key xs) ≡ any_of (λ x. key x == k) xs
elem-map key k [] = refl
elem-map key k (x ∷ xs) = rw (elem-map key k xs) refl

-- A predicate on some row.
abbrev pub Exists {ℓ} : {A : Type ℓ} → (A → Type 0) → List A → Type 0
Exists P [] = ⊥
Exists P (x ∷ xs) = P x ⊎ Exists P xs

pub any_of-Exists :
    {A : Type 0} (P : A → Type 0) (p : A → Bool) (xs : List A)
    → ((x : A) → p x ≡ true → P x)
    → any_of p xs ≡ true
    → Exists P xs
any_of-Exists P p [] f h = absurd (cc h)
any_of-Exists P p (x ∷ xs) f h = elim (Bool-cases (p x)) [
  | inl e ↦ inl (f x e)
  | inr e ↦ inr (any_of-Exists P p xs f (ground (arith, h, e)))
]

module _ {ℓ} {A : Type ℓ} where
  pub Exists-map :
      (P Q : A → Type 0) (xs : List A) → ((x : A) → P x → Q x) → Exists P xs → Exists Q xs
  Exists-map P Q [] f h = absurd h
  Exists-map P Q (x ∷ xs) f (inl h) = inl (f x h)
  Exists-map P Q (x ∷ xs) f (inr h) = inr (Exists-map P Q xs f h)

  -- Where every row that meets `P` passes a test, a row that meets it keeps the selection from being empty.
  pub length-select :
      (P : A → Type 0) (p : A → Bool) (xs : List A)
      → ((x : A) → P x → p x ≡ true)
      → Exists P xs
      → 1 ≤ length (select p xs)
  length-select P p [] f h = absurd h
  length-select P p (x ∷ xs) f (inl h) = rw (f x h) (ground arith)
  length-select P p (x ∷ xs) f (inr h) = ground (arith, length-select P p xs f h)

  pub find?-none : (p : A → Bool) (xs : List A) → All (λ x. p x ≡ false) xs → find? p xs ≡ none
  find?-none p [] h = refl
  find?-none p (x ∷ xs) h = rw (h.0) (find?-none p xs h.1)

-- The row is one of the list.
abbrev pub IsIn : {A : Type 0} → A → List A → Type 0
IsIn x xs = Exists (λ y. y ≡ x) xs

pub All-IsIn : {A : Type 0} (xs : List A) → All (λ x. IsIn x xs) xs
All-IsIn [] = tt
All-IsIn (x ∷ xs) =
    (inl refl, All-map (λ y. IsIn y xs) (λ y. IsIn y (x ∷ xs)) xs (λ y h. inr h) (All-IsIn xs))

-- A selection of rows that are known already.
pub All-narrow {ℓ κ κ'} :
    {A : Type ℓ} (P : A → Type κ) (Q : A → Type κ') (p : A → Bool) (xs : List A)
    → ((x : A) → p x ≡ true → P x → Q x)
    → All P xs
    → All Q (select p xs)
All-narrow P Q p [] f h = tt
All-narrow P Q p (x ∷ xs) f h = elim (Bool-cases (p x)) [
  | inl e ↦ rw e (f x e h.0, All-narrow P Q p xs f h.1)
  | inr e ↦ rw e (All-narrow P Q p xs f h.1)
]

module _ {ℓ} {A : Type ℓ} where
  pub length-append : (xs ys : List A) → length (xs ++ ys) ≡ length xs + length ys
  length-append [] ys = omega arith
  length-append (x ∷ xs) ys = omega (arith, length-append xs ys)

  pub length-take : (n : ℕ) (xs : List A) → length (take n xs) ≤ n
  length-take zero xs = omega arith
  length-take (suc n) [] = omega arith
  length-take (suc n) (x ∷ xs) = omega (arith, length-take n xs)

  pub take_all : (n : ℕ) (xs : List A) → length xs ≤ n → take n xs ≡ xs
  take_all zero [] h = refl
  take_all zero (x ∷ xs) h = absurd (omega (arith, h))
  take_all (suc n) [] h = refl
  take_all (suc n) (x ∷ xs) h = ap (λ (r : List A). x ∷ r) (take_all n xs (omega (arith, h)))

  pub any_of-none : (p : A → Bool) (xs : List A) → All (λ x. p x ≡ false) xs → any_of p xs ≡ false
  any_of-none p [] h = refl
  any_of-none p (x ∷ xs) h = rw (h.0) (any_of-none p xs h.1)

  pub none-any_of : (p : A → Bool) (xs : List A) → any_of p xs ≡ false → All (λ x. p x ≡ false) xs
  none-any_of p [] h = tt
  none-any_of p (x ∷ xs) h = elim (Bool-cases (p x)) [
    | inl e ↦ absurd (ground (arith, h, e))
    | inr e ↦ (e, none-any_of p xs (rw e at h))
  ]
