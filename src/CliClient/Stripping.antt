-- ===== src/CliClient/Stripping.antt =====
-- `str.strip`, as the loop of cli_client.py applies it to a line.
use Prim.Native.Char.{Char, code}
use text.Mathlib.TextLemmas.{nil-append, cons-append}
use dist_res_engine.Base.{
  String, ◌<>◌, ◌≡◌, refl, sym, ap, ◌∙◌, Bool, true, false, ◌&&◌, Bool-cases, inl, inr, nat_eq,
  if◌then◌else◌,
}
use dist_res_engine.CliClient.{is_space, is_empty, lstrip, rstrip, strip}

-- The text ends in white space.
abbrev pub ends_in_space : String → Bool
ends_in_space String.[] = false
ends_in_space (String.◌∷◌ c s) = if is_empty s then is_space (code c) else ends_in_space s

rstrip_step :
    (c : Char) (r : String)
    → ends_in_space r ≡ false
    → ends_in_space (if is_space (code c) && is_empty r then "" else String.◌∷◌ c r) ≡ false
rstrip_step c r h = elim (Bool-cases (is_space (code c))) [
  | inl e ↦ elim (Bool-cases (is_empty r)) [ inl f ↦ rw (e, f) refl | inr f ↦ rw (e, f) (rw f h) ]
  | inr e ↦ elim (Bool-cases (is_empty r)) [ inl f ↦ rw e (rw f e) | inr f ↦ rw e (rw f h) ]
]

pub rstrip-ends : (s : String) → ends_in_space (rstrip s) ≡ false
unfolding rstrip
rstrip-ends String.[] = refl
rstrip-ends (String.◌∷◌ c s) = rstrip_step c (rstrip s) (rstrip-ends s)

-- The text begins with white space.
abbrev pub starts_in_space : String → Bool
starts_in_space String.[] = false
starts_in_space (String.◌∷◌ c s) = is_space (code c)

abbrev pub AllSpace : String → Type 0
AllSpace String.[] = Unit
AllSpace (String.◌∷◌ c s) = (is_space (code c) ≡ true) × AllSpace s

-- The line is `s` with white space around it, and `s` has none at its ends.
abbrev pub IsStripped : String → String → Type 0
IsStripped line s =
    (before : String) × (behind : String) × (line ≡ before <> (s <> behind))
    × AllSpace before
    × AllSpace behind
    × (starts_in_space s ≡ false)
    × (ends_in_space s ≡ false)

empty_text : (s : String) → is_empty s ≡ true → s ≡ ""
empty_text String.[] e = refl
empty_text (String.◌∷◌ c s) e = cc

lstrip_splits :
    (s : String)
    → (a : String) × (s ≡ a <> lstrip s) × AllSpace a × (starts_in_space (lstrip s) ≡ false)
unfolding lstrip
lstrip_splits String.[] = ("", sym (nil-append ""), tt, refl)
lstrip_splits (String.◌∷◌ c s) = elim (Bool-cases (is_space (code c))) [
  | inl e ↦
      let (a, q, space, starts) = lstrip_splits s in
      rw e
        (String.◌∷◌ c a, ap (String.◌∷◌ c) q ∙ sym (cons-append c a (lstrip s)), (e, space), starts)
  | inr e ↦ rw e ("", sym (nil-append (String.◌∷◌ c s)), tt, e)
]

rstrip_splits : (s : String) → (b : String) × (s ≡ rstrip s <> b) × AllSpace b
unfolding rstrip
rstrip_splits String.[] = ("", sym (nil-append ""), tt)
rstrip_splits (String.◌∷◌ c s) =
    let (b, q, space) = rstrip_splits s in
    elim (Bool-cases (is_space (code c))) [
      | inr e ↦ rw e (b, ap (String.◌∷◌ c) q ∙ sym (cons-append c (rstrip s) b), space)
      | inl e ↦ elim (Bool-cases (is_empty (rstrip s))) [
        | inr f ↦ rw (e, f) (b, ap (String.◌∷◌ c) q ∙ sym (cons-append c (rstrip s) b), space)
        | inl f ↦
            let only : s ≡ b = q ∙ ap (λ r. r <> b) (empty_text (rstrip s) f) ∙ nil-append b in
            rw (e, f)
              (
                String.◌∷◌ c b,
                ap (String.◌∷◌ c) only ∙ sym (nil-append (String.◌∷◌ c b)),
                (e, space),
              )
      ]
    ]

rstrip-starts : (s : String) → starts_in_space s ≡ false → starts_in_space (rstrip s) ≡ false
unfolding rstrip
rstrip-starts String.[] h = refl
rstrip-starts (String.◌∷◌ c s) h = rw h h

pub strip-IsStripped : (line : String) → IsStripped line (strip line)
unfolding strip
strip-IsStripped line =
    let (a, q, space_a, starts) = lstrip_splits line in
    let (b, p, space_b) = rstrip_splits (lstrip line) in
    (
      a,
      b,
      q ∙ ap (λ t. a <> t) p,
      space_a,
      space_b,
      rstrip-starts (lstrip line) starts,
      rstrip-ends (lstrip line),
    )
