-- ===== src/Protocol/Wire/Kinds.antt =====
-- Which byte a written value starts with, and what stands behind a value in a list or a dict.
use Prim.Native.Nat.{◌/◌, ◌%◌}
use mathlib.Core.List.{append_assoc}
use dist_res_engine.Base.{
  ℕ, zero, suc, ◌+◌, String, ◌≡◌, refl, sym, ap, ◌∙◌, Bool, true, false, ◌&&◌, List, [], ◌∷◌, ◌++◌,
  arith, Bool-cases, inl, inr, leb, ltb, nat_eq, ◌==◌, if◌then◌else◌,
}
use dist_res_engine.Protocol.Wire.{
  Json, null, bool, num, str, arr, obj, Items, nil, cons, Fields, end, field, decimal, quoted,
  dumps, dumps_items, dumps_fields,
}
use dist_res_engine.Protocol.Wire.Texts.{Ends}

abbrev pub first : List ℕ → ℕ
first [] = 0
first (b ∷ bs) = b

abbrev is_digit : ℕ → Bool
is_digit b = leb 48 b && leb b 57

-- The kind of value that starts with this byte; 7 for none.
unfoldable pub kind : ℕ → ℕ
kind b =
    if is_digit b
    then 3
    else (if b == b'n'
        then 0
        else (if b == b't'
            then 1
            else (if b == b'f'
                then 2
                else (if b == 34
                    then 4
                    else (if b == b'[' then 5 else (if b == b'{' then 6 else 7))))))

abbrev kind_of : Json → ℕ
kind_of null = 0
kind_of (bool true) = 1
kind_of (bool false) = 2
kind_of (num n) = 3
kind_of (str s) = 4
kind_of (arr xs) = 5
kind_of (obj fs) = 6

decimal-first :
    (fuel n : ℕ) (out r : List ℕ)
    → is_digit (first (out ++ r)) ≡ true
    → is_digit (first (decimal fuel n out ++ r)) ≡ true
unfolding decimal
decimal-first zero n out r h = h
decimal-first (suc fuel) n out r h = elim (Bool-cases (ltb n 10)) [
  | inl e ↦ rw e (ground arith)
  | inr e ↦ rw e (decimal-first fuel (n / 10) ((48 + n % 10) ∷ out) r (ground arith))
]

decimal-is_digit : (n : ℕ) (r : List ℕ) → is_digit (first (decimal (suc n) n [] ++ r)) ≡ true
unfolding decimal
decimal-is_digit n r = elim (Bool-cases (ltb n 10)) [
  | inl e ↦ rw e (ground arith)
  | inr e ↦ rw e (decimal-first n (n / 10) ((48 + n % 10) ∷ []) r (ground arith))
]

pub kind-dumps : (j : Json) (r : List ℕ) → kind (first (dumps j ++ r)) ≡ kind_of j
unfolding dumps kind nat_eq quoted
kind-dumps null r = refl
kind-dumps (bool true) r = refl
kind-dumps (bool false) r = refl
kind-dumps (num n) r = rw (decimal-is_digit n r) refl
kind-dumps (str s) r = refl
kind-dumps (arr xs) r = refl
kind-dumps (obj fs) r = refl

pub same_kind : (j k : Json) (r s : List ℕ) → dumps j ++ r ≡ dumps k ++ s → kind_of j ≡ kind_of k
same_kind j k r s e = sym (kind-dumps j r) ∙ ap (λ bs. kind (first bs)) e ∙ kind-dumps k s

-- What follows a value in a list, and what follows the bracket of a list; so too for a dict.
abbrev pub items_tail : Items → List ℕ → List ℕ
items_tail nil r = 93 ∷ r
items_tail (cons x xs) r = 44 ∷ 32 ∷ (dumps x ++ items_tail xs r)

abbrev pub open_items : Items → List ℕ → List ℕ
open_items nil r = 93 ∷ r
open_items (cons x xs) r = dumps x ++ items_tail xs r

abbrev pub fields_tail : Fields → List ℕ → List ℕ
fields_tail end r = 125 ∷ r
fields_tail (field k v fs) r = 44 ∷ 32 ∷ (quoted k ++ (58 ∷ 32 ∷ (dumps v ++ fields_tail fs r)))

abbrev pub open_fields : Fields → List ℕ → List ℕ
open_fields end r = 125 ∷ r
open_fields (field k v fs) r = quoted k ++ (58 ∷ 32 ∷ (dumps v ++ fields_tail fs r))

items-tail :
    (x : Json) (xs : Items) (r : List ℕ)
    → dumps_items (cons x xs) ++ 93 ∷ r ≡ dumps x ++ items_tail xs r
unfolding dumps
items-tail x nil r = refl
items-tail x (cons y ys) r =
    append_assoc (dumps x) (44 ∷ 32 ∷ dumps_items (cons y ys)) (93 ∷ r)
    ∙ ap (λ bs. dumps x ++ (44 ∷ 32 ∷ bs)) (items-tail y ys r)

pub dumps-arr : (xs : Items) (r : List ℕ) → dumps (arr xs) ++ r ≡ 91 ∷ open_items xs r
unfolding dumps
dumps-arr nil r = refl
dumps-arr (cons x xs) r =
    ap (◌∷◌ 91) (append_assoc (dumps_items (cons x xs)) (93 ∷ []) r ∙ items-tail x xs r)

fields-tail :
    (k : String) (v : Json) (fs : Fields) (r : List ℕ)
    → dumps_fields (field k v fs) ++ 125 ∷ r ≡ open_fields (field k v fs) r
unfolding dumps
fields-tail k v end r = append_assoc (quoted k) (58 ∷ 32 ∷ dumps v) (125 ∷ r)
fields-tail k v (field k' v' fs) r =
    append_assoc (quoted k) (58 ∷ 32 ∷ (dumps v ++ (44 ∷ 32 ∷ dumps_fields (field k' v' fs))))
      (125 ∷ r)
    ∙ ap (λ bs. quoted k ++ (58 ∷ 32 ∷ bs))
        (append_assoc (dumps v) (44 ∷ 32 ∷ dumps_fields (field k' v' fs)) (125 ∷ r)
          ∙ ap (λ bs. dumps v ++ (44 ∷ 32 ∷ bs)) (fields-tail k' v' fs r))

pub dumps-obj : (fs : Fields) (r : List ℕ) → dumps (obj fs) ++ r ≡ 123 ∷ open_fields fs r
unfolding dumps
dumps-obj end r = refl
dumps-obj (field k v fs) r =
    ap (◌∷◌ 123) (append_assoc (dumps_fields (field k v fs)) (125 ∷ []) r ∙ fields-tail k v fs r)

pub items_tail-Ends : (xs : Items) (r : List ℕ) → Ends (items_tail xs r)
items_tail-Ends nil r = refl
items_tail-Ends (cons x xs) r = refl

pub fields_tail-Ends : (fs : Fields) (r : List ℕ) → Ends (fields_tail fs r)
fields_tail-Ends end r = refl
fields_tail-Ends (field k v fs) r = refl
