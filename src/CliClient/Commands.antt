-- ===== src/CliClient/Commands.antt =====
-- Which lines are a write.
use Prim.Native.Char.{code}
use text.Mathlib.TextEquality.{Char-path}
use text.Mathlib.TextLemmas.{nil-append, cons-append}
use mathlib.Core.Bool.{true≢false}
use mathlib.Core.Option.{some-injective, none-ne-some, some-ne-none}
use dist_res_engine.Base.{
  String, ◌<>◌, ◌≡◌, ◌≢◌, ◌↔◌, refl, sym, ap, ◌∙◌, true, false, Option, none, some, ◌⊎◌, arith,
  Bool-cases, inl, inr, nat_eq, string_eq, ◌==◌,
}
use dist_res_engine.CliClient.{
  is_empty, lstrip, strip, without_prefix, Command, nothing, quit, leave, read_file, write_text,
  unknown, command,
}
use dist_res_engine.CliClient.Stripping.{ends_in_space, rstrip-ends}

without_prefix-append : (p t : String) → without_prefix p (p <> t) ≡ some t
unfolding without_prefix
without_prefix-append String.[] t = ap some (nil-append t)
without_prefix-append (String.◌∷◌ c p) t =
    rw (cons-append c p t) (ground (arith, without_prefix-append p t))

without_prefix_sound : (p s t : String) → without_prefix p s ≡ some t → s ≡ p <> t
unfolding without_prefix
without_prefix_sound String.[] s t e = some-injective s t e ∙ sym (nil-append t)
without_prefix_sound (String.◌∷◌ c p) String.[] t e = cc
without_prefix_sound (String.◌∷◌ c p) (String.◌∷◌ d s) t e = elim (Bool-cases (code c == code d)) [
  | inl f ↦
      rw (cons-append c p t, Char-path c d (ground arith))
        (ap (String.◌∷◌ d) (without_prefix_sound p s t (rw f at e)))
  | inr f ↦ absurd (none-ne-some t (rw f at e))
]

-- A text behind the prefix is none of the other commands.
prefix_differs : (t q : String) → without_prefix "write " q ≡ none → ("write " <> t == q) ≡ false
prefix_differs t q e = elim (Bool-cases ("write " <> t == q)) [
  | inr f ↦ f
  | inl f ↦
      let same : "write " <> t ≡ q = ground arith in
      absurd (
        some-ne-none t
          (sym (without_prefix-append "write " t) ∙ ap (without_prefix "write ") same ∙ e))
]

is_empty_prefix : (t : String) → is_empty ("write " <> t) ≡ false
is_empty_prefix t = rw (cons-append _ _ t) refl

not_quit : (t : String) → ("write " <> t == "quit") ≡ false
unfolding without_prefix nat_eq
not_quit t = prefix_differs t "quit" refl

not_logout : (t : String) → ("write " <> t == "logout") ≡ false
unfolding without_prefix nat_eq
not_logout t = prefix_differs t "logout" refl

not_read : (t : String) → ("write " <> t == "read") ≡ false
unfolding without_prefix nat_eq
not_read t = prefix_differs t "read" refl

write_ends : ends_in_space "write " ≡ true
unfolding nat_eq
write_ends = refl

command_prefix : (t : String) → command ("write " <> t) ≡ write_text t
unfolding command
command_prefix t =
    rw (is_empty_prefix t, not_quit t, not_logout t, not_read t, without_prefix-append "write " t)
      refl

command_sound : (s t : String) → command s ≡ write_text t → s ≡ "write " <> t
unfolding command
command_sound s t h = without_prefix_sound "write " s t (ground (arith, h))

-- The words of the loop, each as its stripped line.
abbrev pub IsCommand : String → Type 0
IsCommand s =
    (s ≡ "quit") ⊎ ((s ≡ "logout") ⊎ ((s ≡ "read") ⊎ ((t : String) × (s ≡ "write " <> t))))

-- What a stripped line is, by the command that it is taken for.
abbrev pub Means : String → Command → Type 0
Means s quit = s ≡ "quit"
Means s leave = s ≡ "logout"
Means s read_file = s ≡ "read"
Means s (write_text t) = s ≡ "write " <> t
Means s nothing = ¬ IsCommand s
Means s unknown = ¬ IsCommand s

same_text : (s t : String) → (s == t) ≡ true → s ≡ t
same_text s t h = ground arith

no_prefix : (s t : String) → without_prefix "write " s ≡ none → s ≢ "write " <> t
no_prefix s t e h =
    some-ne-none t
      (sym (without_prefix-append "write " t) ∙ ap (without_prefix "write ") (sym h) ∙ e)

empty-Means : (s : String) → is_empty s ≡ true → ¬ IsCommand s
empty-Means s e (inl h) = true≢false (sym e ∙ ap is_empty h)
empty-Means s e (inr (inl h)) = true≢false (sym e ∙ ap is_empty h)
empty-Means s e (inr (inr (inl h))) = true≢false (sym e ∙ ap is_empty h)
empty-Means s e (inr (inr (inr (t, h)))) = true≢false (sym e ∙ ap is_empty h ∙ is_empty_prefix t)

other-Means :
    (s : String)
    → (s == "quit") ≡ false
    → (s == "logout") ≡ false
    → (s == "read") ≡ false
    → without_prefix "write " s ≡ none
    → ¬ IsCommand s
other-Means s a b c e (inl h) = ground arith
other-Means s a b c e (inr (inl h)) = ground arith
other-Means s a b c e (inr (inr (inl h))) = ground arith
other-Means s a b c e (inr (inr (inr (t, h)))) = no_prefix s t e h

-- The tests of the loop take each line for what it is.
pub command-Means : (s : String) → Means s (command s)
unfolding command
command-Means s = elim (Bool-cases (is_empty s)) [
  | inl e ↦ rw e (empty-Means s e)
  | inr e ↦ elim (Bool-cases (s == "quit")) [
    | inl q ↦ rw (e, q) (same_text s "quit" q)
    | inr q ↦ elim (Bool-cases (s == "logout")) [
      | inl l ↦ rw (e, q, l) (same_text s "logout" l)
      | inr l ↦ elim (Bool-cases (s == "read")) [
        | inl r ↦ rw (e, q, l, r) (same_text s "read" r)
        | inr r ↦
            rw (e, q, l, r)
              (behind (without_prefix "write " s) (other-Means s q l r)
                (without_prefix_sound "write " s))
      ]
    ]
  ]
]
  where
    behind :
        (o : Option String)
        → (o ≡ none → ¬ IsCommand s)
        → ((t : String) → o ≡ some t → s ≡ "write " <> t)
        → Means s (elim o [ some text ↦ write_text text | none ↦ unknown ])
    behind none h k = h refl
    behind (some t) h k = k t refl

-- A line is taken as a WRITE of `t` exactly when it is, without the white space around it, "write "
-- and behind it `t`; and the `t` of such a line is never empty.
pub line_writes :
    (line t : String)
    → ((command (strip line) ≡ write_text t) ↔ (strip line ≡ "write " <> t))
      × (command (strip line) ≡ write_text t → t ≢ "")
unfolding strip
line_writes line t = (
  (λ h. command_sound (strip line) t h, λ e. rw e (command_prefix t)),
  λ h e.
      let whole : strip line ≡ "write " = command_sound (strip line) t h ∙ rw e refl in
      let ends : ends_in_space "write " ≡ false = rw whole at (rstrip-ends (lstrip line)) in
      true≢false (sym write_ends ∙ ends),
)
