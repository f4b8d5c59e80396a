-- ===== src/DataLayer/Listing.antt =====
-- data_layer.py: `list_users`, and its order.
use Prim.Native.Nat.{Ordering, compare as compare_ℕ}
use Prim.Native.Char.{code}
use Prim.Native.String.{compare, then as first}
use Prim.Native.String.compare as Compare
use dist_res_engine.Base.{
  ℕ, suc, String, ◌≡◌, refl, ap, ◌∙◌, Bool, true, false, List, [], ◌∷◌, length, arith, Bool-cases,
  inl, inr, string_eq, if◌then◌else◌,
}
use dist_res_engine.DataLayer.{Row, DataLayer, has_row}

-- The order of `ORDER BY user_id`: the texts' bytes in UTF-8, which is that of their code points.
abbrev pub is_gt : Ordering → Bool
is_gt Ordering.gt = true
is_gt _ = false

abbrev pub is_after : Row → Row → Bool
is_after (u, _) (v, _) = is_gt (compare u v)

unfoldable pub insert_row : Row → List Row → List Row
insert_row row [] = row ∷ []
insert_row row (r ∷ rows) =
    let rest = insert_row row rows in if is_after row r then r ∷ rest else row ∷ r ∷ rows

unfoldable pub sort_rows : List Row → List Row
unfolding insert_row
sort_rows [] = []
sort_rows (row ∷ rows) = insert_row row (sort_rows rows)

unfoldable pub list_users : DataLayer → List Row
unfolding sort_rows
list_users d = sort_rows d.users

abbrev flip : Ordering → Ordering
flip Ordering.lt = Ordering.gt
flip Ordering.eq = Ordering.eq
flip Ordering.gt = Ordering.lt

flip-first : (a b : Ordering) → flip (first a b) ≡ first (flip a) (flip b)
flip-first Ordering.lt b = refl
flip-first Ordering.eq b = refl
flip-first Ordering.gt b = refl

flip_ℕ : (m n : ℕ) → compare_ℕ m n ≡ flip (compare_ℕ n m)
flip_ℕ m n = ground arith

flip-compare : (s t : String) → compare s t ≡ flip (compare t s)
flip-compare String.[] String.[] = refl
flip-compare String.[] (String.◌∷◌ d t) = rw (Compare.nil-cons d t, Compare.cons-nil d t) refl
flip-compare (String.◌∷◌ c s) String.[] = rw (Compare.nil-cons c s, Compare.cons-nil c s) refl
flip-compare (String.◌∷◌ c s) (String.◌∷◌ d t) =
    rw
      (
        Compare.cons-cons c d s t,
        Compare.cons-cons d c t s,
        flip-first,
        ← flip_ℕ (code c) (code d),
        ← flip-compare s t,
      )
      refl

-- No row comes before one that it is after.
abbrev pub IsSorted : List Row → Type 0
IsSorted [] = Unit
IsSorted (r ∷ []) = Unit
IsSorted (r ∷ r' ∷ rows) = (is_after r r' ≡ false) × IsSorted (r' ∷ rows)

-- If a row is not before another then it is after it.
after_total : (r q : Row) → is_after r q ≡ true → is_after q r ≡ false
after_total (u, n) (v, m) h = ground (arith, h, flip-compare u v)

module _ (row : Row) where
  IsSorted-cons :
      (r : Row) (rows : List Row)
      → is_after row r ≡ true
      → IsSorted (r ∷ rows)
      → IsSorted (insert_row row rows)
      → IsSorted (r ∷ insert_row row rows)
  unfolding insert_row
  IsSorted-cons r [] a v w = (after_total row r a, tt)
  IsSorted-cons r (q ∷ rows) a v w = elim (Bool-cases (is_after row q)) [
    | inl e ↦ rw e (v.0, rw e at w)
    | inr e ↦ rw e (after_total row r a, rw e at w)
  ]

  insert_row-IsSorted : (rows : List Row) → IsSorted rows → IsSorted (insert_row row rows)
  unfolding insert_row
  insert_row-IsSorted [] v = tt
  insert_row-IsSorted (r ∷ []) v = elim (Bool-cases (is_after row r)) [
    | inl e ↦ rw e (after_total row r e, tt)
    | inr e ↦ rw e (e, tt)
  ]
  insert_row-IsSorted (r ∷ q ∷ rows) v = elim (Bool-cases (is_after row r)) [
    | inl e ↦ rw e (IsSorted-cons r (q ∷ rows) e v (insert_row-IsSorted (q ∷ rows) v.1))
    | inr e ↦ rw e (e, v)
  ]

  has_row-insert_row :
      (u n : String) (rows : List Row)
      → has_row u n (insert_row row rows) ≡ has_row u n (row ∷ rows)
  unfolding insert_row has_row
  has_row-insert_row u n [] = refl
  has_row-insert_row u n (r ∷ rows) = ground (arith, has_row-insert_row u n rows)

  length-insert_row : (rows : List Row) → length (insert_row row rows) ≡ suc (length rows)
  unfolding insert_row
  length-insert_row [] = refl
  length-insert_row (r ∷ rows) = ground (arith, length-insert_row rows)

sort_rows-IsSorted : (rows : List Row) → IsSorted (sort_rows rows)
unfolding sort_rows
sort_rows-IsSorted [] = tt
sort_rows-IsSorted (row ∷ rows) = insert_row-IsSorted row (sort_rows rows) (sort_rows-IsSorted rows)

has_row-sort_rows :
    (u n : String) (rows : List Row) → has_row u n (sort_rows rows) ≡ has_row u n rows
unfolding sort_rows has_row
has_row-sort_rows u n [] = refl
has_row-sort_rows u n (row ∷ rows) =
    has_row-insert_row row u n (sort_rows rows) ∙ ground (arith, has_row-sort_rows u n rows)

length-sort_rows : (rows : List Row) → length (sort_rows rows) ≡ length rows
unfolding sort_rows
length-sort_rows [] = refl
length-sort_rows (row ∷ rows) =
    length-insert_row row (sort_rows rows) ∙ ap suc (length-sort_rows rows)

-- `list_users` returns the rows of the table, as many and the same ones, and no row stands before
-- one with a smaller user_id.
pub list_users-IsSorted :
    (d : DataLayer)
    → IsSorted (list_users d)
      × ((u n : String) → has_row u n (list_users d) ≡ has_row u n d.users)
      × (length (list_users d) ≡ length d.users)
unfolding list_users
list_users-IsSorted d =
    (sort_rows-IsSorted d.users, λ u n. has_row-sort_rows u n d.users, length-sort_rows d.users)
