-- ===== src/Base/Outcome.antt =====
-- Python's exceptions, as far as the program meets them, and the decimal text of a number.
use Prim.Native.Char.{Char, code}
use Prim.Native.Nat.{ℕ, zero, suc, ◌/◌, ◌%◌, ◌<◌}
use Prim.Native.String.{String, ◌++◌}
use dist_res_engine.Base.Lists.{get_elem?, All, length}
use dist_res_engine.Base.Tests.{ltb, leb, if◌then◌else◌, Bool-cases}
use mathlib.Core.Path.{◌≡◌, refl}
use mathlib.Core.Logic.{inl, inr}
use mathlib.Core.Bool.{Bool, true, false, ◌&&◌}
use native.Mathlib.Omega.{arith}
use text.Mathlib.TextLemmas.{cons-append}
use mathlib.Core.List.{List, [], ◌∷◌}
use mathlib.Core.Option.{none, some}

pub data Exc : Type 0 where
  os_error : Exc  -- OSError, ConnectionError among them
  value_error : Exc
  type_error : Exc
  attribute_error : Exc
  database_error : Exc  -- sqlite3.Error
  overflow_error : Exc

pub data Result (A : Type 0) : Type 0 where
  ok : A → Result A
  raised : Exc → Result A

abbrev digit_texts : List String
digit_texts = "0" ∷ "1" ∷ "2" ∷ "3" ∷ "4" ∷ "5" ∷ "6" ∷ "7" ∷ "8" ∷ "9" ∷ []

abbrev digit_text : ℕ → String
digit_text d = elim (get_elem? digit_texts d) [ some t ↦ t | none ↦ "" ]

decimal_text : ℕ → ℕ → String → String
decimal_text zero n out = out
decimal_text (suc fuel) n out =
    let out' = digit_text (n % 10) ++ out in
    let rest = decimal_text fuel (n / 10) out' in if ltb n 10 then out' else rest

-- `str(n)`
unfoldable pub text_of : ℕ → String
unfolding decimal_text
text_of n = decimal_text (suc n) n ""

-- The text begins with a digit.
abbrev pub starts_with_digit : String → Bool
starts_with_digit String.[] = false
starts_with_digit (String.◌∷◌ c s) = leb 48 (code c) && leb (code c) 57

StartsDigit : String → Type 0
StartsDigit t = (out : String) → starts_with_digit (t ++ out) ≡ true

one_digit : (c : Char) → leb 48 (code c) && leb (code c) 57 ≡ true → StartsDigit (String.◌∷◌ c "")
unfolding StartsDigit
one_digit c h out = rw (cons-append c "" out) h

nth {ℓ} :
    (P : String → Type ℓ) (xs : List String) (d : ℕ)
    → All P xs
    → d < length xs
    → (t : String) × (get_elem? xs d ≡ some t) × P t
nth P [] d a h = absurd (omega arith)
nth P (x ∷ xs) zero a h = (x, refl, a.0)
nth P (x ∷ xs) (suc d) a h = nth P xs d a.1 (omega arith)

digits_start : All StartsDigit digit_texts
digits_start = (
  one_digit _ refl,
  (
    one_digit _ refl,
    (
      one_digit _ refl,
      (
        one_digit _ refl,
        (
          one_digit _ refl,
          (
            one_digit _ refl,
            (one_digit _ refl, (one_digit _ refl, (one_digit _ refl, (one_digit _ refl, tt)))),
          ),
        ),
      ),
    ),
  ),
)

digit_starts : (d : ℕ) (out : String) → d < 10 → starts_with_digit (digit_text d ++ out) ≡ true
unfolding StartsDigit
digit_starts d out h =
    let (t, e, starts) = nth StartsDigit digit_texts d digits_start h in rw e (starts out)

decimal_text-starts :
    (fuel n : ℕ) (out : String)
    → starts_with_digit out ≡ true
    → starts_with_digit (decimal_text fuel n out) ≡ true
unfolding decimal_text
decimal_text-starts zero n out h = h
decimal_text-starts (suc fuel) n out h =
    let out' = digit_text (n % 10) ++ out in
    let starts = digit_starts (n % 10) out (omega arith) in
    elim (Bool-cases (ltb n 10)) [
      | inl e ↦ rw e starts
      | inr e ↦ rw e (decimal_text-starts fuel (n / 10) out' starts)
    ]

pub text_of-starts : (n : ℕ) → starts_with_digit (text_of n) ≡ true
unfolding text_of decimal_text
text_of-starts n =
    let out' = digit_text (n % 10) ++ "" in
    let starts = digit_starts (n % 10) "" (omega arith) in
    elim (Bool-cases (ltb n 10)) [
      | inl e ↦ rw e starts
      | inr e ↦ rw e (decimal_text-starts n (n / 10) out' starts)
    ]
