-- ===== src/Protocol/Wire/Unique.antt =====
-- No two messages are written alike.
use dist_res_engine.Base.{
  ℕ, String, ◌≡◌, ◌≢◌, refl, sym, ap, ◌∙◌, true, false, List, [], ◌∷◌, ◌++◌, arith, nat_eq,
}
use dist_res_engine.Protocol.Wire.{
  Json, null, bool, num, str, arr, obj, Items, nil, cons, Fields, end, field, quoted, dumps,
}
use dist_res_engine.Protocol.Wire.Texts.{Ends, rest_of, decimal_splits, quoted_splits}
use dist_res_engine.Protocol.Wire.Kinds.{
  first, kind, kind-dumps, same_kind, items_tail, open_items, fields_tail, open_fields, dumps-arr,
  dumps-obj, items_tail-Ends, fields_tail-Ends,
}

-- A closing bracket starts no value.
not_open : (x : Json) (r s : List ℕ) → 93 ∷ r ≢ dumps x ++ s
unfolding kind nat_eq
not_open x r s e = ground (arith, ap (λ bs. kind (first bs)) e ∙ kind-dumps x s)

abbrev pub Splits : Json → Type 0
Splits j =
    (k : Json) (r s : List ℕ) → Ends r → Ends s → dumps j ++ r ≡ dumps k ++ s → (j ≡ k) × (r ≡ s)

abbrev rest_of_four : List ℕ → List ℕ
rest_of_four bs = rest_of (rest_of (rest_of (rest_of bs)))

null_rest : (r s : List ℕ) → dumps null ++ r ≡ dumps null ++ s → r ≡ s
unfolding dumps
null_rest r s e = ap rest_of_four e

true_rest : (r s : List ℕ) → dumps (bool true) ++ r ≡ dumps (bool true) ++ s → r ≡ s
unfolding dumps
true_rest r s e = ap rest_of_four e

false_rest : (r s : List ℕ) → dumps (bool false) ++ r ≡ dumps (bool false) ++ s → r ≡ s
unfolding dumps
false_rest r s e = ap (λ bs. rest_of (rest_of_four bs)) e

num_splits :
    (m n : ℕ) (r s : List ℕ)
    → Ends r
    → Ends s
    → dumps (num m) ++ r ≡ dumps (num n) ++ s
    → (m ≡ n) × (r ≡ s)
unfolding dumps
num_splits = decimal_splits

str_splits :
    (t u : String) (r s : List ℕ) → dumps (str t) ++ r ≡ dumps (str u) ++ s → (t ≡ u) × (r ≡ s)
unfolding dumps
str_splits = quoted_splits

-- A closing brace starts no key.
not_key : (k : String) (r s : List ℕ) → 125 ∷ r ≢ quoted k ++ s
unfolding quoted
not_key k r s e = omega (arith, ap first e)

mutual
  json-Splits : (j : Json) → Splits j
  json-Splits null null r s hr hs e = (refl, null_rest r s e)
  json-Splits (bool true) (bool true) r s hr hs e = (refl, true_rest r s e)
  json-Splits (bool false) (bool false) r s hr hs e = (refl, false_rest r s e)
  json-Splits (num m) (num n) r s hr hs e =
      let (same, rest) = num_splits m n r s hr hs e in (ap num same, rest)
  json-Splits (str t) (str u) r s hr hs e =
      let (same, rest) = str_splits t u r s e in (ap str same, rest)
  json-Splits (arr xs) (arr ys) r s hr hs e =
      let (same, rest) =
        open_items_splits xs ys r s (ap rest_of (sym (dumps-arr xs r) ∙ e ∙ dumps-arr ys s)) in
      (ap arr same, rest)
  json-Splits (obj fs) (obj gs) r s hr hs e =
      let (same, rest) =
        open_fields_splits fs gs r s (ap rest_of (sym (dumps-obj fs r) ∙ e ∙ dumps-obj gs s)) in
      (ap obj same, rest)
  json-Splits j k r s hr hs e = ground (arith, same_kind j k r s e)

  open_items_splits :
      (xs ys : Items) (r s : List ℕ) → open_items xs r ≡ open_items ys s → (xs ≡ ys) × (r ≡ s)
  open_items_splits nil nil r s e = (refl, ap rest_of e)
  open_items_splits nil (cons y ys) r s e = absurd (not_open y r _ e)
  open_items_splits (cons x xs) nil r s e = absurd (not_open x s _ (sym e))
  open_items_splits (cons x xs) (cons y ys) r s e =
      let (same, tail) =
        json-Splits x y (items_tail xs r) (items_tail ys s) (items_tail-Ends xs r)
          (items_tail-Ends ys s) e in
      let (more, rest) = items_tail_splits xs ys r s tail in (rw (same, more) refl, rest)

  items_tail_splits :
      (xs ys : Items) (r s : List ℕ) → items_tail xs r ≡ items_tail ys s → (xs ≡ ys) × (r ≡ s)
  items_tail_splits nil nil r s e = (refl, ap rest_of e)
  items_tail_splits nil (cons y ys) r s e = absurd (omega (arith, ap first e))
  items_tail_splits (cons x xs) nil r s e = absurd (omega (arith, ap first e))
  items_tail_splits (cons x xs) (cons y ys) r s e =
      let (same, tail) =
        json-Splits x y (items_tail xs r) (items_tail ys s) (items_tail-Ends xs r)
          (items_tail-Ends ys s) (ap (λ bs. rest_of (rest_of bs)) e) in
      let (more, rest) = items_tail_splits xs ys r s tail in (rw (same, more) refl, rest)

  open_fields_splits :
      (fs gs : Fields) (r s : List ℕ) → open_fields fs r ≡ open_fields gs s → (fs ≡ gs) × (r ≡ s)
  open_fields_splits end end r s e = (refl, ap rest_of e)
  open_fields_splits end (field k v gs) r s e = absurd (not_key k r _ e)
  open_fields_splits (field k v fs) end r s e = absurd (not_key k s _ (sym e))
  open_fields_splits (field k v fs) (field l w gs) r s e =
      let (key, tail) = quoted_splits k l _ _ e in
      let (same, more) =
        json-Splits v w (fields_tail fs r) (fields_tail gs s) (fields_tail-Ends fs r)
          (fields_tail-Ends gs s) (ap (λ bs. rest_of (rest_of bs)) tail) in
      let (others, rest) = fields_tail_splits fs gs r s more in (rw (key, same, others) refl, rest)

  fields_tail_splits :
      (fs gs : Fields) (r s : List ℕ) → fields_tail fs r ≡ fields_tail gs s → (fs ≡ gs) × (r ≡ s)
  fields_tail_splits end end r s e = (refl, ap rest_of e)
  fields_tail_splits end (field k v gs) r s e = absurd (omega (arith, ap first e))
  fields_tail_splits (field k v fs) end r s e = absurd (omega (arith, ap first e))
  fields_tail_splits (field k v fs) (field l w gs) r s e =
      let (key, tail) = quoted_splits k l _ _ (ap (λ bs. rest_of (rest_of bs)) e) in
      let (same, more) =
        json-Splits v w (fields_tail fs r) (fields_tail gs s) (fields_tail-Ends fs r)
          (fields_tail-Ends gs s) (ap (λ bs. rest_of (rest_of bs)) tail) in
      let (others, rest) = fields_tail_splits fs gs r s more in (rw (key, same, others) refl, rest)

-- What is written of a value ends where the value ends, if no digit follows.
pub dumps-Splits : (j : Json) → Splits j
dumps-Splits = json-Splits

pub first_of_obj : (m : Fields) (r : List ℕ) → dumps (obj m) ++ r ≢ []
unfolding kind
first_of_obj m r e = ground (arith, sym (kind-dumps (obj m) r) ∙ ap (λ bs. kind (first bs)) e)
