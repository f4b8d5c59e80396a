-- ===== src/Connection/Backoff.antt =====
-- connection.py: the waits of `_connect_with_retry` between its attempts, in units of half a second.
use dist_res_engine.Base.{
  ℕ, zero, suc, ◌*◌, ◌+◌, ◌++◌, length, replicate, sym, ap, ◌∙◌, ◌≡◌, refl, Bool, true, false, some,
  List, [], ◌∷◌, leb, arith, if◌then◌else◌, get_elem?,
}
use mathlib.Core.Option.{some-injective}

-- `_BACKOFF_START`
abbrev pub backoff_start : ℕ
backoff_start = 1

-- `_BACKOFF_MAX`
abbrev pub backoff_max : ℕ
backoff_max = 16

-- `min(backoff * 2, _BACKOFF_MAX)`
abbrev pub next_backoff : ℕ → ℕ
next_backoff b = if leb (b * 2) backoff_max then b * 2 else backoff_max

-- What is slept after each failed attempt, from a backoff on; the list holds what the calls of
-- `_connect_once` return, and ends with the first that succeeds or with the end of `_running`.
unfoldable pub sleeps : ℕ → List Bool → List ℕ
sleeps b [] = []
sleeps b (true ∷ attempts) = []
sleeps b (false ∷ attempts) = b ∷ sleeps (next_backoff b) attempts

-- The `k`-th wait of an unbroken row of failures, without a cap.
abbrev pub doubled : ℕ → ℕ
doubled zero = backoff_start
doubled (suc k) = 2 * doubled k

-- The cap comes in from the sixth wait on.
abbrev pub capped : ℕ → ℕ
capped k = if leb (doubled k) backoff_max then doubled k else backoff_max

next_backoff-capped : (k : ℕ) → next_backoff (capped k) ≡ capped (suc k)
next_backoff-capped k = ground arith

sleeps_from :
    (j : ℕ) (attempts : List Bool) (k d : ℕ)
    → get_elem? (sleeps (capped j) attempts) k ≡ some d
    → d ≡ capped (j + k)
unfolding sleeps
sleeps_from j [] k d e = ground (arith, e)
sleeps_from j (true ∷ more) k d e = ground (arith, e)
sleeps_from j (false ∷ more) zero d e =
    let same : j ≡ j + 0 = omega arith in sym (some-injective _ _ e) ∙ ap capped same
sleeps_from j (false ∷ more) (suc k) d e =
    let same : suc j + k ≡ j + suc k = omega arith in
    sleeps_from (suc j) more k d (rw (next_backoff-capped j) at e) ∙ ap capped same

length-sleeps :
    (b m : ℕ) (more : List Bool) → length (sleeps b (replicate m false ++ true ∷ more)) ≡ m
unfolding sleeps
length-sleeps b zero more = refl
length-sleeps b (suc m) more = ap suc (length-sleeps (next_backoff b) m more)

-- Where `m` attempts fail and the next one succeeds, `_connect_with_retry` sleeps exactly `m` times
-- and then returns; and whatever the attempts return, the `k`-th sleep, from 0, is half a second
-- doubled `k` times, or eight seconds where that is less.
pub backoff_schedule :
    (m : ℕ) (more attempts : List Bool)
    → (length (sleeps backoff_start (replicate m false ++ true ∷ more)) ≡ m)
      × ((k d : ℕ) → get_elem? (sleeps backoff_start attempts) k ≡ some d → d ≡ capped k)
backoff_schedule m more attempts = (
  length-sleeps backoff_start m more,
  λ k d e. let same : 0 + k ≡ k = omega arith in sleeps_from 0 attempts k d e ∙ ap capped same,
)
