-- ===== src/Base/Threads.antt =====
-- Families `ℕ → A` indexed by thread: an update at one index, and how many of the first `n`
-- threads pass a test.
use Prim.Native.Nat.{ℕ, zero, suc, ◌+◌, ◌≤◌, ◌<◌}
use mathlib.Core.Path.{◌≡◌, refl}
use mathlib.Core.Logic.{ite}
use mathlib.Core.Bool.{Bool, true, false}
use dist_res_engine.Base.Tests.{Bool-cases}
use mathlib.Core.Logic.{inl, inr}
use native.Mathlib.Decide.{dec_lt, ℕ_discrete}
use native.Mathlib.Omega.{arith}

abbrev pub update {ℓ} : {A : Type ℓ} → (ℕ → A) → ℕ → A → ℕ → A
update f i a j = ite (ℕ_discrete i j) a (f j)

abbrev pub weight : Bool → ℕ
weight true = 1
weight false = 0

module _ {ℓ} {A : Type ℓ} (p : A → Bool) where
  unfoldable pub count : ℕ → (ℕ → A) → ℕ
  count zero f = 0
  count (suc n) f = weight (p (f n)) + count n f

  count-update_above : (n i : ℕ) (f : ℕ → A) (a : A) → n ≤ i → count n (update f i a) ≡ count n f
  unfolding count
  count-update_above zero i f a h = refl
  count-update_above (suc n) i f a h = ground (arith, count-update_above n i f a)

  -- An update trades the old entry for the new one.
  pub count-update :
      (n i : ℕ) (f : ℕ → A) (a : A)
      → i < n
      → count n (update f i a) + weight (p (f i)) ≡ count n f + weight (p a)
  unfolding count
  count-update zero i f a h = absurd (omega arith)
  count-update (suc n) i f a h = elim (dec_lt i n) [
    | yes below ↦ ground (arith, count-update n i f a below)
    | no last ↦ ground (arith, count-update_above n i f a)
  ]

  -- An update that the test does not see.
  pub count-update_same :
      (n i : ℕ) (f : ℕ → A) (a : A) → p (f i) ≡ p a → count n (update f i a) ≡ count n f
  count-update_same n i f a e = elim (dec_lt i n) [
    | yes below ↦ ground (arith, count-update n i f a below)
    | no above ↦ count-update_above n i f a (omega arith)
  ]

  pub count-eq-zero : (n : ℕ) (f : ℕ → A) → ((i : ℕ) → i < n → p (f i) ≡ false) → count n f ≡ 0
  unfolding count
  count-eq-zero zero f h = refl
  count-eq-zero (suc n) f h =
      ground (arith, h n (omega arith), count-eq-zero n f (λ i q. h i (omega arith)))

  -- A change that the test does not see.
  pub count-map :
      (g : A → A)
      → ((a : A) → p (g a) ≡ p a)
      → (n : ℕ) (f : ℕ → A) → count n (λ i. g (f i)) ≡ count n f
  unfolding count
  count-map g h zero f = refl
  count-map g h (suc n) f = rw (h (f n), count-map g h n f)

  -- A thread that passes is counted,
  pub count-pos : (n i : ℕ) (f : ℕ → A) → i < n → p (f i) ≡ true → 1 ≤ count n f
  unfolding count
  count-pos zero i f h e = absurd (omega arith)
  count-pos (suc n) i f h e = elim (dec_lt i n) [
    | yes below ↦ omega (arith, count-pos n i f below e)
    | no last ↦ ground arith
  ]

  -- and two that pass are counted twice.
  pub count-two :
      (n i j : ℕ) (f : ℕ → A) → i < j → j < n → p (f i) ≡ true → p (f j) ≡ true → 2 ≤ count n f
  unfolding count
  count-two zero i j f h k ei ej = absurd (omega arith)
  count-two (suc n) i j f h k ei ej = elim (dec_lt j n) [
    | yes below ↦ omega (arith, count-two n i j f h below ei ej)
    | no last ↦ ground (arith, count-pos n i f)
  ]

  -- If the count is not zero then some thread passes.
  pub count-witness : (n : ℕ) (f : ℕ → A) → 1 ≤ count n f → (i : ℕ) × (i < n) × (p (f i) ≡ true)
  unfolding count
  count-witness zero f h = absurd (omega arith)
  count-witness (suc n) f h = elim (Bool-cases (p (f n))) [
    | inl here ↦ (n, omega arith, here)
    | inr miss ↦ let (i, q, e) = count-witness n f (ground arith) in (i, omega arith, e)
  ]
