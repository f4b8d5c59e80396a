-- ===== src/Connection/Requests.antt =====
-- connection.py: the ids of the requests that are sent, and of those that wait to be sent.
use dist_res_engine.Base.{
  ℕ, zero, suc, ◌+◌, ◌≤◌, ◌<◌, ◌≡◌, ap, ◌∙◌, Bool, true, false, Option, some, List, [], ◌∷◌, ◌++◌,
  arith, inl, inr, get_elem?, get_elem?-append_cases, string_eq, nat_eq, ◌==◌,
}
use mathlib.Core.Option.{some-injective}
use dist_res_engine.Base.Threads.{update, weight}
use dist_res_engine.Protocol.Wire.{Json, num, Fields, get}
use dist_res_engine.Connection.{Caller, absent, parked, waiting}

abbrev pub number_is : ℕ → Option Json → Bool
number_is i (some (num j)) = j == i
number_is i _ = false

abbrev pub has_id : ℕ → Fields → Bool
has_id i m = number_is i (get "id" m)

-- How many of the messages have the id `i`.
abbrev pub uses : ℕ → List Fields → ℕ
uses i [] = 0
uses i (m ∷ ms) = weight (has_id i m) + uses i ms

has_id-eq : (i j : ℕ) (m : Fields) → get "id" m ≡ some (num j) → has_id i m ≡ (j == i)
has_id-eq i j m e = ap (number_is i) e

uses-append :
    (i : ℕ) (ms : List Fields) (m : Fields)
    → uses i (ms ++ m ∷ []) ≡ uses i ms + weight (has_id i m)
uses-append i [] m = omega arith
uses-append i (n ∷ ms) m = omega (arith, uses-append i ms m)

pub uses-get_elem? :
    (i : ℕ) (ms : List Fields) (k : ℕ) (m : Fields)
    → get_elem? ms k ≡ some m
    → get "id" m ≡ some (num i)
    → 1 ≤ uses i ms
unfolding nat_eq
uses-get_elem? i [] k m e f = absurd (ground arith)
uses-get_elem? i (n ∷ ms) zero m e f =
    ground (arith, has_id-eq i i n (ap (get "id") (some-injective n m e) ∙ f))
uses-get_elem? i (n ∷ ms) (suc k) m e f = omega (arith, uses-get_elem? i ms k m e f)

abbrev pub is_parked : Caller → Bool
is_parked (parked m) = true
is_parked _ = false

-- Each id is used by one request, sent or to be sent.
pub record Asked (next : ℕ) (callers : ℕ → Caller) (sent : List Fields) : Type 0 where
  pub numbered :
      (k : ℕ) (m : Fields)
      → get_elem? sent k ≡ some m
      → (j : ℕ) × (get "id" m ≡ some (num j)) × (j < next)
  pub parked_ids :
      (i : ℕ) (m : Fields) → callers i ≡ parked m → (get "id" m ≡ some (num i)) × (i < next)
  pub once : (i : ℕ) → uses i sent + weight (is_parked (callers i)) ≤ 1
  pub unused : (i : ℕ) → next ≤ i → uses i sent ≡ 0

module _ {n : ℕ} {cs : ℕ → Caller} {sent : List Fields} (v : Asked n cs sent) where
  pub parked-Asked :
      (m : Fields) → get "id" m ≡ some (num n) → Asked (n + 1) (update cs n (parked m)) sent
  parked-Asked m e = record {
    numbered = λ k m' f. let (j, g, h) = v.numbered k m' f in (j, g, omega (arith, h));
    parked_ids = λ i m' f. ground (arith, e, v.parked_ids i m');
    once = λ i. ground (arith, v.once i, v.unused n);
    unused = λ i h. v.unused i (omega (arith, h));
  }

  -- The caller goes on.
  pub moved-Asked : (i : ℕ) (p : Caller) → is_parked p ≡ false → Asked n (update cs i p) sent
  moved-Asked i p e = record {
    numbered = v.numbered;
    parked_ids = λ j m f. ground (arith, e, v.parked_ids j m);
    once = λ j. ground (arith, v.once j, e);
    unused = v.unused;
  }

  pub sent-Asked :
      (i : ℕ) (m : Fields) → cs i ≡ parked m → Asked n (update cs i waiting) (sent ++ m ∷ [])
  unfolding nat_eq
  sent-Asked i m e = record {
    numbered = λ k m' f. elim (get_elem?-append_cases sent m m' k f) [
      | inl old ↦ v.numbered k m' old
      | inr same ↦ (i, rw⁻¹ same (v.parked_ids i m e).0, (v.parked_ids i m e).1)
    ];
    parked_ids = λ j m' f. ground (arith, v.parked_ids j m');
    once = λ j.
        ground (arith, v.once j, e, uses-append j sent m, has_id-eq j i m (v.parked_ids i m e).0);
    unused = λ j h. ground (
      arith,
      v.unused j h,
      uses-append j sent m,
      has_id-eq j i m (v.parked_ids i m e).0,
      (v.parked_ids i m e).1,
    );
  }

  pub skipped-Asked : Asked (n + 1) cs sent
  skipped-Asked = record {
    numbered = λ k m f. let (j, g, h) = v.numbered k m f in (j, g, omega (arith, h));
    parked_ids = λ i m f. let (g, h) = v.parked_ids i m f in (g, omega (arith, h));
    once = v.once;
    unused = λ i h. v.unused i (omega (arith, h));
  }

  -- A message that no caller waits to send.
  pub added-Asked :
      (m : Fields) → get "id" m ≡ some (num n) → cs n ≡ absent → Asked (n + 1) cs (sent ++ m ∷ [])
  unfolding nat_eq
  added-Asked m e a = record {
    numbered = λ k m' f. elim (get_elem?-append_cases sent m m' k f) [
      | inl old ↦ let (j, g, h) = v.numbered k m' old in (j, g, omega (arith, h))
      | inr same ↦ (n, rw⁻¹ same e, omega arith)
    ];
    parked_ids = λ i m' f. let (g, h) = v.parked_ids i m' f in (g, omega (arith, h));
    once = λ i. ground (arith, v.once i, a, v.unused n, uses-append i sent m, has_id-eq i n m e);
    unused = λ i h. ground (arith, v.unused i, uses-append i sent m, has_id-eq i n m e);
  }

pub started-Asked : Asked 1 (λ _. absent) []
started-Asked = record {
  numbered = λ k m f. absurd (ground arith);
  parked_ids = λ i m f. absurd (ground arith);
  once = λ i. omega arith;
  unused = λ i h. omega arith;
}
