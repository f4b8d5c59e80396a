-- ===== src/Protocol/Wire/Ascii.antt =====
-- What bytes `json.dumps` writes.
use Prim.Native.Nat.{◌/◌, ◌%◌}
use dist_res_engine.Base.{
  ℕ, zero, suc, ◌+◌, ◌-◌, ◌≤◌, ◌<◌, String, ◌≡◌, true, false, List, [], ◌∷◌, ◌++◌, All, arith,
  nat_eq, some, Option-cases, Bool-cases, leb, ◌&&◌, inl, inr,
}
use dist_res_engine.Protocol.Wire.{
  Json, Items, Fields, null, bool, num, str, arr, obj, nil, cons, end, field, codes, decimal,
  hex_digit, hex_escape, short_escape, unicode_escape, escape, escapes, quoted, dumps, dumps_items,
  dumps_fields,
}

-- From the space to the tilde.
abbrev pub IsPrintable : ℕ → Type 0
IsPrintable b = (32 ≤ b) × (b ≤ 126)

abbrev pub AllPrintable : List ℕ → Type 0
AllPrintable bs = All IsPrintable bs

All-append {ℓ κ} :
    {A : Type ℓ} (P : A → Type κ) (xs ys : List A) → All P xs → All P ys → All P (xs ++ ys)
All-append P [] ys hx hy = hy
All-append P (x ∷ xs) ys hx hy = (hx.0, All-append P xs ys hx.1 hy)

append-AllPrintable : (xs ys : List ℕ) → AllPrintable xs → AllPrintable ys → AllPrintable (xs ++ ys)
append-AllPrintable = All-append IsPrintable

decimal-AllPrintable :
    (fuel n : ℕ) (out : List ℕ) → AllPrintable out → AllPrintable (decimal fuel n out)
unfolding decimal
decimal-AllPrintable zero n out h = h
decimal-AllPrintable (suc fuel) n out h =
    ground (arith, decimal-AllPrintable fuel (n / 10) ((b'0' + n % 10) ∷ out))

hex_digit-IsPrintable : (d : ℕ) → d < 16 → IsPrintable (hex_digit d)
unfolding hex_digit
hex_digit-IsPrintable d h = ground arith

hex_escape-AllPrintable : (n : ℕ) → AllPrintable (hex_escape n)
unfolding hex_escape
hex_escape-AllPrintable n = ground (
  arith,
  hex_digit-IsPrintable (n / 4096 % 16),
  hex_digit-IsPrintable (n / 256 % 16),
  hex_digit-IsPrintable (n / 16 % 16),
  hex_digit-IsPrintable (n % 16),
)

short_escape-IsPrintable : (c x : ℕ) → short_escape c ≡ some x → IsPrintable x
unfolding short_escape
short_escape-IsPrintable c x h = ground arith

unicode_escape-AllPrintable : (c : ℕ) → AllPrintable (unicode_escape c)
unfolding unicode_escape
unicode_escape-AllPrintable c = ground (
  arith,
  hex_escape-AllPrintable c,
  append-AllPrintable (hex_escape (55296 + (c - 65536) / 1024 % 1024))
      (hex_escape (56320 + (c - 65536) % 1024))
      (hex_escape-AllPrintable (55296 + (c - 65536) / 1024 % 1024))
      (hex_escape-AllPrintable (56320 + (c - 65536) % 1024)),
)

plain-IsPrintable : (c : ℕ) → (leb 32 c && leb c 126) ≡ true → IsPrintable c
plain-IsPrintable c h = ground arith

escape-AllPrintable : (c : ℕ) → AllPrintable (escape c)
unfolding escape
escape-AllPrintable c = elim (Option-cases (short_escape c)) [
  | inl e ↦ elim (Bool-cases (leb 32 c && leb c 126)) [
    | inl plain ↦ rw (e, escape, plain) (plain-IsPrintable c plain, tt)
    | inr wide ↦ rw (e, escape, wide) (unicode_escape-AllPrintable c)
  ]
  | inr (x, e) ↦ rw (e, escape) (ground (arith, short_escape-IsPrintable c x e))
]

escapes-AllPrintable : (cs : List ℕ) → AllPrintable (escapes cs)
unfolding escapes
escapes-AllPrintable [] = tt
escapes-AllPrintable (c ∷ cs) =
    append-AllPrintable (escape c) (escapes cs) (escape-AllPrintable c) (escapes-AllPrintable cs)

quoted-AllPrintable : (s : String) → AllPrintable (quoted s)
unfolding quoted
quoted-AllPrintable s = (
  omega arith,
  append-AllPrintable (escapes (codes s)) (34 ∷ []) (escapes-AllPrintable (codes s)) (omega arith),
)

mutual
  unfolding dumps dumps_items dumps_fields

  dumps_printable : (j : Json) → AllPrintable (dumps j)
  dumps_printable null = omega arith
  dumps_printable (bool true) = omega arith
  dumps_printable (bool false) = omega arith
  dumps_printable (num n) = decimal-AllPrintable (suc n) n [] tt
  dumps_printable (str s) = quoted-AllPrintable s
  dumps_printable (arr xs) =
      (omega arith, append-AllPrintable (dumps_items xs) _ (items_printable xs) (omega arith))
  dumps_printable (obj fs) =
      (omega arith, append-AllPrintable (dumps_fields fs) _ (fields_printable fs) (omega arith))

  items_printable : (xs : Items) → AllPrintable (dumps_items xs)
  items_printable nil = tt
  items_printable (cons x nil) = dumps_printable x
  items_printable (cons x (cons y ys)) =
      append-AllPrintable (dumps x) _ (dumps_printable x)
        ((omega arith), ((omega arith), items_printable (cons y ys)))

  fields_printable : (fs : Fields) → AllPrintable (dumps_fields fs)
  fields_printable end = tt
  fields_printable (field k v end) =
      append-AllPrintable (quoted k) _ (quoted-AllPrintable k)
        ((omega arith), ((omega arith), dumps_printable v))
  fields_printable (field k v (field k' v' fs)) =
      append-AllPrintable (quoted k) _ (quoted-AllPrintable k) (
        (omega arith),
        (
          (omega arith),
          append-AllPrintable (dumps v) _ (dumps_printable v)
              ((omega arith), ((omega arith), fields_printable (field k' v' fs))),
        ),
      )

-- Every byte that `json.dumps` writes is a printable ASCII character, whatever is in the texts: so
-- no line break, and UTF-8 encodes it as it is.
pub dumps-AllPrintable : (j : Json) → AllPrintable (dumps j)
dumps-AllPrintable j = dumps_printable j
