-- ===== src/Prelude/Lists.antt =====
-- Tables as lists: `select` is a `WHERE`, `find?` its first row, `update_where` an `UPDATE … WHERE`.
use Prim.Native.Nat.{ℕ, zero, suc}
use mathlib.Core.Path.{◌≡◌, refl, sym, ap}
use mathlib.Core.Logic.{◌⊎◌, inl, inr}
use mathlib.Core.Bool.{Bool, true, false, ◌||◌}
use mathlib.Core.Option.{Option, none, some}
use mathlib.Core.List.{List, [], ◌∷◌, ◌++◌}
use native.Mathlib.Omega.{arith}
use support_flow.Prelude.Tests.{if◌then◌else◌, ◌==◌, Bool-cases}

module _ {ℓ} {A : Type ℓ} where
  abbrev pub length : List A → ℕ
  length [] = 0
  length (x ∷ xs) = suc (length xs)

  abbrev pub take : ℕ → List A → List A
  take zero xs = []
  take (suc n) [] = []
  take (suc n) (x ∷ xs) = x ∷ take n xs

  abbrev pub select : (A → Bool) → List A → List A
  select p [] = []
  select p (x ∷ xs) = let rest = select p xs in if p x then x ∷ rest else rest

  abbrev pub find? : (A → Bool) → List A → Option A
  find? p [] = none
  find? p (x ∷ xs) = if p x then some x else find? p xs

  abbrev pub update_where : (A → Bool) → (A → A) → List A → List A
  update_where p f [] = []
  update_where p f (x ∷ xs) = (if p x then f x else x) ∷ update_where p f xs

  abbrev pub any_of : (A → Bool) → List A → Bool
  any_of p [] = false
  any_of p (x ∷ xs) = p x || any_of p xs

abbrev pub elem : ℕ → List ℕ → Bool
elem a = any_of (λ b. b == a)

pub List-cases {ℓ} :
    {A : Type ℓ} (xs : List A) → (xs ≡ []) ⊎ ((x : A) × ((rest : List A) × (xs ≡ x ∷ rest)))
List-cases [] = inl refl
List-cases (x ∷ xs) = inr (x, (xs, refl))

-- A predicate on every row.
abbrev pub All {ℓ κ} : {A : Type ℓ} → (A → Type κ) → List A → Type κ
All P [] = Unit
All P (x ∷ xs) = P x × All P xs

module _ {ℓ} {A : Type ℓ} where
  pub find?-true : (p : A → Bool) (xs : List A) {x : A} → find? p xs ≡ some x → p x ≡ true
  find?-true p [] h = cc
  find?-true p (y ∷ xs) h = elim (Bool-cases (p y)) [
    | inl e ↦ ground (arith, e)
    | inr e ↦ find?-true p xs (rw e at h)
  ]

  pub select-append :
      (p : A → Bool) (xs ys : List A) → select p (xs ++ ys) ≡ select p xs ++ select p ys
  select-append p [] ys = refl
  select-append p (x ∷ xs) ys = ground (arith, select-append p xs ys)

  pub find?-select :
      (p q : A → Bool) (xs : List A)
      → ((x : A) → q x ≡ true → p x ≡ true)
      → find? q (select p xs) ≡ find? q xs
  find?-select p q [] h = refl
  find?-select p q (x ∷ xs) h = ground (arith, h x, find?-select p q xs h)

module _ {ℓ} {A : Type ℓ} where
  -- An update that a test cannot see changes the row that it finds, and no other.
  pub find?-update_where :
      (p q : A → Bool) (f : A → A) (xs : List A) {x : A}
      → ((y : A) → p (f y) ≡ p y)
      → find? p xs ≡ some x
      → q x ≡ true
      → find? p (update_where q f xs) ≡ some (f x)
  find?-update_where p q f [] same h t = cc
  find?-update_where p q f (y ∷ xs) {x} same h t = elim (Bool-cases (p y)) [
    | inl e ↦
        let e' : some y ≡ some x = rw e at h in
        let y≡x : y ≡ x = cc in rw (y≡x, t, same x, sym (ap p y≡x), e) refl
    | inr e ↦
        let rest = find?-update_where p q f xs same (rw e at h) t in
        elim (Bool-cases (q y)) [ inl e' ↦ rw (e', same y, e) rest | inr e' ↦ rw (e', e) rest ]
  ]

  pub find?-append :
      (p : A → Bool) (xs ys : List A) {x : A} → find? p xs ≡ some x → find? p (xs ++ ys) ≡ some x
  find?-append p [] ys h = cc
  find?-append p (y ∷ xs) ys h = elim (Bool-cases (p y)) [
    | inl e ↦ rw e (rw e at h)
    | inr e ↦ rw e (find?-append p xs ys (rw e at h))
  ]

module _ {ℓ κ} {A : Type ℓ} (P : A → Type κ) where
  pub All-map {κ'} : (Q : A → Type κ') (xs : List A) → ((x : A) → P x → Q x) → All P xs → All Q xs
  All-map Q [] f h = tt
  All-map Q (x ∷ xs) f h = (f x h.0, All-map Q xs f h.1)

  pub All-pure : (xs : List A) → ((x : A) → P x) → All P xs
  All-pure [] h = tt
  All-pure (x ∷ xs) h = (h x, All-pure xs h)

  pub All-append : (xs ys : List A) → All P xs → All P ys → All P (xs ++ ys)
  All-append [] ys hx hy = hy
  All-append (x ∷ xs) ys hx hy = (hx.0, All-append xs ys hx.1 hy)

  pub All-find? : (p : A → Bool) (xs : List A) {x : A} → All P xs → find? p xs ≡ some x → P x
  All-find? p [] h e = cc
  All-find? p (y ∷ xs) h e = elim (Bool-cases (p y)) [
    | inl t ↦ ground (arith, h.0, t)
    | inr t ↦ All-find? p xs h.1 (rw t at e)
  ]

  pub All-update_where :
      (p : A → Bool) (f : A → A) (xs : List A)
      → ((x : A) → p x ≡ true → P x → P (f x))
      → All P xs
      → All P (update_where p f xs)
  All-update_where p f [] keep h = tt
  All-update_where p f (x ∷ xs) keep h = (
    elim (Bool-cases (p x)) [ inl e ↦ rw e (keep x e h.0) | inr e ↦ rw e h.0 ],
    All-update_where p f xs keep h.1,
  )

-- Selecting, paging: no row but those of the list.
module _ {ℓ κ} {A : Type ℓ} (P : A → Type κ) where
  pub All-take : (n : ℕ) (xs : List A) → All P xs → All P (take n xs)
  All-take zero xs h = tt
  All-take (suc n) [] h = tt
  All-take (suc n) (x ∷ xs) h = (h.0, All-take n xs h.1)

  pub All-select : (p : A → Bool) (xs : List A) → ((x : A) → p x ≡ true → P x) → All P (select p xs)
  All-select p [] h = tt
  All-select p (x ∷ xs) h = elim (Bool-cases (p x)) [
    | inl e ↦ rw e (h x e, All-select p xs h)
    | inr e ↦ rw e (All-select p xs h)
  ]

  pub All-keep : (p : A → Bool) (xs : List A) → All P xs → All P (select p xs)
  All-keep p [] h = tt
  All-keep p (x ∷ xs) h = elim (Bool-cases (p x)) [
    | inl e ↦ rw e (h.0, All-keep p xs h.1)
    | inr e ↦ rw e (All-keep p xs h.1)
  ]

-- What an update leaves of a selection that it does not touch.
module _ {ℓ} {A : Type ℓ} where
  pub select-update_where :
      (p q : A → Bool) (f : A → A) (xs : List A)
      → All (λ x. p x ≡ true → (q x ≡ false) × (q (f x) ≡ false)) xs
      → select q (update_where p f xs) ≡ select q xs
  select-update_where p q f [] h = refl
  select-update_where p q f (x ∷ xs) h = elim (Bool-cases (p x)) [
    | inl e ↦ rw (e, (h.0 e).0, (h.0 e).1) (select-update_where p q f xs h.1)
    | inr e ↦
        rw e (ap (λ (r : List A). if q x then x ∷ r else r) (select-update_where p q f xs h.1))
  ]

-- The rows carry different keys.
module _ {ℓ} {A : Type ℓ} (key : A → ℕ) where
  abbrev pub PrimaryKey : List A → Type ℓ
  PrimaryKey [] = Unit
  PrimaryKey (x ∷ xs) = All (λ y. (key y == key x) ≡ false) xs × PrimaryKey xs

  -- A row found by any test is the only one with its key.
  pub find?-PrimaryKey :
      (p : A → Bool) (xs : List A) {x : A}
      → PrimaryKey xs
      → find? p xs ≡ some x
      → All (λ y. (key y == key x) ≡ true → y ≡ x) xs
  find?-PrimaryKey p [] k h = tt
  find?-PrimaryKey p (y ∷ xs) {x} k h = elim (Bool-cases (p y)) [
    | inl e ↦
        let e' : some y ≡ some x = rw e at h in
        let y≡x : y ≡ x = cc in
        (
          λ _. y≡x,
          All-map (λ z. (key z == key y) ≡ false) _ xs
              (λ z ne same. cc (ne, same, ap (λ (r : A). key z == key r) y≡x)) k.0,
        )
    | inr e ↦
        let found : find? p xs ≡ some x = rw e at h in
        (
          λ same.
              let ne : (key x == key y) ≡ false =
                All-find? (λ z. (key z == key y) ≡ false) p xs k.0 found in
              absurd (ground (arith, ne, same)),
          find?-PrimaryKey p xs k.1 found,
        )
  ]

-- What a selection says of the whole list.
module _ {ℓ} {A : Type ℓ} where
  pub select-none : (p : A → Bool) (xs : List A) → All (λ x. p x ≡ false) xs → select p xs ≡ []
  select-none p [] h = refl
  select-none p (x ∷ xs) h = rw (h.0) (select-none p xs h.1)

  pub select-All {κ} :
      (P : A → Type κ) (p : A → Bool) (xs : List A)
      → All P (select p xs)
      → All (λ x. p x ≡ true → P x) xs
  select-All P p [] h = tt
  select-All P p (x ∷ xs) h = elim (Bool-cases (p x)) [
    | inl e ↦ let h' : All P (x ∷ select p xs) = rw e at h in ((λ _. h'.0), select-All P p xs h'.1)
    | inr e ↦ ((λ e'. cc (e, e')), select-All P p xs (rw e at h))
  ]

  pub any_of-append :
      (p : A → Bool) (xs ys : List A) → any_of p (xs ++ ys) ≡ (any_of p xs || any_of p ys)
  any_of-append p [] ys = refl
  any_of-append p (x ∷ xs) ys = ground (arith, any_of-append p xs ys)
