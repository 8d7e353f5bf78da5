-- ===== src/Prelude/Sort.antt =====
-- `ORDER BY`: a list put in the order of a test.
use mathlib.Core.Logic.{inl, inr}
use mathlib.Core.Path.{◌≡◌, refl, ap, ◌∙◌}
use native.Mathlib.Omega.{arith}
use mathlib.Core.Bool.{Bool, ◌||◌}
use mathlib.Core.List.{List, [], ◌∷◌}
use support_flow.Prelude.Tests.{if◌then◌else◌, Bool-cases}
use Prim.Native.Nat.{suc}
use support_flow.Prelude.Lists.{All, any_of, length}

module _ {A : Type 0} (before : A → A → Bool) where
  insert_by : A → List A → List A
  insert_by x [] = x ∷ []
  insert_by x (y ∷ ys) = if before x y then x ∷ y ∷ ys else y ∷ insert_by x ys

  unfoldable pub order_by : List A → List A
  unfolding insert_by
  order_by [] = []
  order_by (x ∷ xs) = insert_by x (order_by xs)

module _ {κ} {A : Type 0} (P : A → Type κ) (before : A → A → Bool) where
  All-insert_by : (x : A) (ys : List A) → P x → All P ys → All P (insert_by before x ys)
  unfolding insert_by
  All-insert_by x [] h hs = (h, tt)
  All-insert_by x (y ∷ ys) h hs = elim (Bool-cases (before x y)) [
    | inl e ↦ rw e (h, hs)
    | inr e ↦ rw e (hs.0, All-insert_by x ys h hs.1)
  ]

  pub All-order_by : (xs : List A) → All P xs → All P (order_by before xs)
  unfolding order_by
  All-order_by [] h = tt
  All-order_by (x ∷ xs) h = All-insert_by x (order_by before xs) h.0 (All-order_by xs h.1)

module _ {A : Type 0} (p : A → Bool) (before : A → A → Bool) where
  any_of-insert_by : (x : A) (ys : List A) → any_of p (insert_by before x ys) ≡ (p x || any_of p ys)
  unfolding insert_by
  any_of-insert_by x [] = refl
  any_of-insert_by x (y ∷ ys) = elim (Bool-cases (before x y)) [
    | inl e ↦ rw e refl
    | inr e ↦ rw (e, any_of-insert_by x ys) (ground arith)
  ]

  pub any_of-order_by : (xs : List A) → any_of p (order_by before xs) ≡ any_of p xs
  unfolding order_by
  any_of-order_by [] = refl
  any_of-order_by (x ∷ xs) =
      any_of-insert_by x (order_by before xs) ∙ ap (λ b. p x || b) (any_of-order_by xs)

module _ {A : Type 0} (before : A → A → Bool) where
  length-insert_by : (x : A) (ys : List A) → length (insert_by before x ys) ≡ suc (length ys)
  unfolding insert_by
  length-insert_by x [] = refl
  length-insert_by x (y ∷ ys) = elim (Bool-cases (before x y)) [
    | inl e ↦ rw e refl
    | inr e ↦ rw (e, length-insert_by x ys) refl
  ]

  pub length-order_by : (xs : List A) → length (order_by before xs) ≡ length xs
  unfolding order_by
  length-order_by [] = refl
  length-order_by (x ∷ xs) =
      length-insert_by x (order_by before xs) ∙ ap (λ n. suc n) (length-order_by xs)
