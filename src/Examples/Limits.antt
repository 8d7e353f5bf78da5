-- ===== src/Examples/Limits.antt =====
-- A counter that behaves as Redis does, for one key.
use support_flow.Prelude.{
  ℕ, suc, ◌≡◌, ◌<◌, ◌+◌, refl, ap, true, Option, none, some, [], ◌∷◌, ltb, if◌then◌else◌, inl, inr,
  Bool-cases, arith,
}
use support_flow.Prelude.Int.{pos}
use support_flow.RateLimit.{Redis}
use support_flow.RateLimit.Window.{IsDocumented, answers, first_ones, answers-first_ones}

-- The value of a key and the instant at which it expires.
abbrev Counter : Type 0
Counter = Option (ℕ × ℕ)

abbrev alive : ℕ → Counter → Counter
alive now none = none
alive now (some (n, expiry)) = if ltb now expiry then some (n, expiry) else none

abbrev set_if_absent : ℕ → ℕ → Counter → Counter → Counter
set_if_absent seconds now none s = some (0, now + seconds)
set_if_absent seconds now (some v) s = s

abbrev bump : Counter → ℕ × Counter
bump none = (1, none)
bump (some (n, expiry)) = (suc n, some (suc n, expiry))

abbrev counter : Redis Counter
counter = record {
  reachable = λ now s. true;
  set_nx_ex = λ key seconds now s. set_if_absent seconds now (alive now s) s;
  incr = λ key now s. bump (alive now s);
  ttl = λ key now s. pos 1;
}

abbrev expiry_of : Counter → ℕ
expiry_of none = 0
expiry_of (some (n, expiry)) = expiry

alive-live :
    (now n expiry : ℕ) (s : Counter)
    → alive now s ≡ some (n, expiry)
    → (s ≡ some (n, expiry)) × (now < expiry)
alive-live now n expiry none h = cc
alive-live now n expiry (some (m, e)) h = elim (Bool-cases (ltb now e)) [
  | inl before ↦
      let same : some (m, e) ≡ some (n, expiry) = rw before at h in
      (same, ground (arith, before, ap expiry_of same))
  | inr after ↦ let bad : none ≡ some (n, expiry) = rw after at h in cc
]

alive-later :
    (now n expiry : ℕ) → now < expiry → (m : ℕ) → alive now (some (m, expiry)) ≡ some (m, expiry)
alive-later now n expiry before m = ground (arith, before)

counter-IsDocumented : IsDocumented counter (λ key now s. alive now s)
counter-IsDocumented = record {
  set_new = λ key seconds now s fresh positive. rw fresh (ground (arith, positive));
  set_old = λ key seconds now n expiry s live. rw live refl;
  incr_reply = λ key now n expiry s live. rw live refl;
  incr_value = λ key now n expiry s live.
      rw live (alive-later now n expiry (alive-live now n expiry s live).1 (suc n));
  persists = λ key now later n expiry s live le lt.
      rw ((alive-live now n expiry s live).0) (alive-later later n expiry lt n);
  always_reachable = λ now s. refl;
}

answers-first_ones_example :
    answers counter "ratelimit:login:::1" 2 60 100 (0 ∷ 5 ∷ 5 ∷ []) none
    ≡ first_ones 2 0 (0 ∷ 5 ∷ 5 ∷ [])
answers-first_ones_example =
    answers-first_ones counter (λ key now s. alive now s) counter-IsDocumented "ratelimit:login:::1"
      2 60 100 0 (5 ∷ 5 ∷ []) none refl (ground arith) (ground arith)
