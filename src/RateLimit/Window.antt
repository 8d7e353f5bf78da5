-- ===== src/RateLimit/Window.antt =====
-- What the limiter of backend/app/core/rate_limit.py allows within one window.
use support_flow.Prelude.{
  ℕ, suc, ◌≡◌, ◌≤◌, ◌<◌, ◌+◌, refl, ap, String, Bool, true, false, Option, none, some, List, [],
  ◌∷◌, ltb, if◌then◌else◌, arith,
}
use support_flow.Errors.{AppError, Result, ok, raised}
use support_flow.RateLimit.{Redis, hit, enforce}

-- What Redis documents of the three commands: `lookup` is the value and the expiry that a key has at an
-- instant, none before `SET` and after the expiry.
pub record IsDocumented {S : Type 0} (redis : Redis S) (lookup : String → ℕ → S → Option (ℕ × ℕ))
    : Type 0 where
  pub set_new :
      (key : String) (seconds now : ℕ) (s : S)
      → lookup key now s ≡ none
      → 1 ≤ seconds
      → lookup key now (redis.set_nx_ex key seconds now s) ≡ some (0, now + seconds)
  pub set_old :
      (key : String) (seconds now n expiry : ℕ) (s : S)
      → lookup key now s ≡ some (n, expiry)
      → redis.set_nx_ex key seconds now s ≡ s
  pub incr_reply :
      (key : String) (now n expiry : ℕ) (s : S)
      → lookup key now s ≡ some (n, expiry)
      → (redis.incr key now s).0 ≡ suc n
  pub incr_value :
      (key : String) (now n expiry : ℕ) (s : S)
      → lookup key now s ≡ some (n, expiry)
      → lookup key now (redis.incr key now s).1 ≡ some (suc n, expiry)
  pub persists :
      (key : String) (now later n expiry : ℕ) (s : S)
      → lookup key now s ≡ some (n, expiry)
      → now ≤ later
      → later < expiry
      → lookup key later s ≡ some (n, expiry)
  pub always_reachable : (now : ℕ) (s : S) → redis.reachable now s ≡ true

abbrev allowed : Result (Unit {0}) → Bool
allowed (ok _) = true
allowed (raised e) = false

-- The answers to a sequence of requests, each some seconds after the one before.
module _ {S : Type 0} (redis : Redis S) where
  unfoldable pub answers : String → ℕ → ℕ → ℕ → List ℕ → S → List Bool
  answers key limit window_seconds now [] s = []
  answers key limit window_seconds now (gap ∷ gaps) s =
      let (r, s') = enforce redis key limit window_seconds (now + gap) s in
      allowed r ∷ answers key limit window_seconds (now + gap) gaps s'

-- The first `limit` requests of a window, of which `n` were made.
unfoldable pub first_ones : ℕ → ℕ → List ℕ → List Bool
first_ones limit n [] = []
first_ones limit n (gap ∷ gaps) = ltb n limit ∷ first_ones limit (suc n) gaps

abbrev pub total : List ℕ → ℕ
total [] = 0
total (gap ∷ gaps) = gap + total gaps

decision :
    (limit n : ℕ) (e : AppError)
    → allowed (if ltb limit (suc n) then raised e else ok tt) ≡ ltb n limit
decision limit n e = ground arith

module _ {S : Type 0} (redis : Redis S) (lookup : String → ℕ → S → Option (ℕ × ℕ))
    (documented : IsDocumented redis lookup) where
  -- One request on a key that is live after the `SET`.
  enforce-live :
      (key : String) (limit window now n expiry : ℕ) (s : S)
      → lookup key now (redis.set_nx_ex key window now s) ≡ some (n, expiry)
      → (allowed (enforce redis key limit window now s).0 ≡ ltb n limit)
        × (lookup key now (enforce redis key limit window now s).1 ≡ some (suc n, expiry))
  unfolding enforce hit
  enforce-live key limit window now n expiry s live =
      rw (documented.always_reachable now s, documented.incr_reply key now n expiry _ live)
        (decision limit n _, documented.incr_value key now n expiry _ live)

  answers-live :
      (key : String) (limit window now n expiry : ℕ) (gaps : List ℕ) (s : S)
      → lookup key now s ≡ some (n, expiry)
      → now + total gaps < expiry
      → answers redis key limit window now gaps s ≡ first_ones limit n gaps
  unfolding answers first_ones
  answers-live key limit window now n expiry [] s live inside = refl
  answers-live key limit window now n expiry (gap ∷ gaps) s live inside =
      let still =
        documented.persists key now (now + gap) n expiry s live (ground arith)
          (ground (arith, inside)) in
      let kept = documented.set_old key window (now + gap) n expiry s still in
      let (answer, next) = enforce-live key limit window (now + gap) n expiry s (rw kept still) in
      rw answer (
        ap (λ (bs : List Bool). ltb n limit ∷ bs)
          (answers-live key limit window (now + gap) (suc n) expiry gaps _ next
            (ground (arith, inside))))

  -- While Redis answers as it documents, then of the requests that a new key gets within one window, the
  -- first of which opens it, exactly the first `limit` are allowed.
  pub answers-first_ones :
      (key : String) (limit window now gap : ℕ) (gaps : List ℕ) (s : S)
      → lookup key (now + gap) s ≡ none
      → 1 ≤ window
      → total gaps < window
      → answers redis key limit window now (gap ∷ gaps) s ≡ first_ones limit 0 (gap ∷ gaps)
  unfolding answers first_ones
  answers-first_ones key limit window now gap gaps s fresh positive inside =
      let (answer, next) =
        enforce-live key limit window (now + gap) 0 (now + gap + window) s
          (documented.set_new key window (now + gap) s fresh positive) in
      rw answer (
        ap (λ (bs : List Bool). ltb 0 limit ∷ bs)
          (answers-live key limit window (now + gap) 1 (now + gap + window) gaps _ next
            (ground (arith, inside))))
