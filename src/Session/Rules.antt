-- ===== src/Session/Rules.antt =====
-- Total correctness of service calls: what a call returns and the world that it leaves.
use support_flow.Prelude.{◌≡◌, refl, Bool, true, false, Option, none, some}
use support_flow.Errors.{AppError, Result, ok, raised}
use support_flow.Session.{World, App, caught, continue, ◌>>=◌, ◌>>◌, require, require_some}

-- The call returned a value, and `P` holds of it and of the world left behind.
pub record Leads {A : Type 0} (P : A → World → Type 0) (r : Result A × World) : Type 0 where
  pub result : A
  pub returns : r.0 ≡ ok result
  pub post : P result r.1

pub Leads-pure :
    {A : Type 0} (P : A → World → Type 0) (a : A) (w : World) → P a w → Leads P (ok a, w)
Leads-pure P a w h = record { result = a; returns = refl; post = h }

-- What holds after a call that returned, for whatever the next calls make of it.
pub Leads-bind :
    {A B : Type 0} (P : A → World → Type 0) (Q : Result B × World → Type 0) (r : Result A × World)
    (f : A → App B)
    → Leads P r
    → ((a : A) (w' : World) → P a w' → Q (f a w'))
    → Q (continue r.0 f r.1)
Leads-bind P Q r f h k = rw (h.returns) (k h.result r.1 h.post)

-- The parts of a world that staging more rows leaves alone.
pub record SameTickets (w w' : World) : Type 0 where
  pub tickets : w'.session.tickets ≡ w.session.tickets
  pub messages : w'.session.messages ≡ w.session.messages
  pub committed : w'.committed ≡ w.committed
  pub effects : w'.effects ≡ w.effects

pub SameTickets-refl : (w : World) → SameTickets w w
SameTickets-refl w = record { tickets = refl; messages = refl; committed = refl; effects = refl }

-- A guard either ends the call in the world as it stands, or lets it go on.
module _ {B : Type 0} (P : World → Type 0) where
  pub require_some-rule :
      {A : Type 0} (o : Option A) (e : AppError) (f : A → App B) (w : World)
      → P w
      → ((a : A) → o ≡ some a → P (f a w).1)
      → P ((require_some o e >>= f) w).1
  require_some-rule none e f w h k = h
  require_some-rule (some a) e f w h k = k a refl

  pub require-rule :
      (b : Bool) (e : AppError) (f : App B) (w : World)
      → P w
      → (b ≡ true → P (f w).1)
      → P ((require b e >> f) w).1
  require-rule true e f w h k = k refl
  require-rule false e f w h k = h

-- A call keeps a property of the world, whether it returns or raises.
abbrev pub Preserves : {A : Type 0} → (World → Type 0) → App A → Type 0
Preserves P m = (w : World) → P w → P (m w).1

module _ (P : World → Type 0) where
  pub continue-rule :
      {A B : Type 0} (r : Result A) (f : A → App B) (w : World)
      → P w
      → ((a : A) → Preserves P (f a))
      → P (continue r f w).1
  continue-rule (ok a) f w h k = k a w h
  continue-rule (raised e) f w h k = h

  pub Preserves-bind :
      {A B : Type 0} (m : App A) (f : A → App B)
      → Preserves P m
      → ((a : A) → Preserves P (f a))
      → Preserves P (m >>= f)
  Preserves-bind m f h k w p = continue-rule (m w).0 f (m w).1 (h w p) k

  pub Preserves-caught : {A : Type 0} (m : App A) → Preserves P m → Preserves P (caught m)
  Preserves-caught m h w p = h w p
