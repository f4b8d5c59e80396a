-- ===== src/Protocol/Wire/Texts.antt =====
-- The numbers and the texts that `json.dumps` writes can be read back.
use Prim.Native.Char.{Char, char, code}
use Prim.Native.Nat.{◌/◌, ◌%◌}
use mathlib.Core.List.{append_assoc}
use mathlib.Core.Bool.{true≢false}
use text.Mathlib.TextEquality.{Char-path}
use dist_res_engine.Base.{
  ℕ, zero, suc, ◌+◌, ◌-◌, ◌*◌, ◌≤◌, ◌<◌, String, ◌≡◌, ◌≢◌, refl, sym, ap, ◌∙◌, ◌⊎◌, inl, inr, Bool,
  true, false, ◌&&◌, List, [], ◌∷◌, ◌++◌, arith, Bool-cases, leb, ltb, nat_eq, ◌==◌, if◌then◌else◌,
}
use dist_res_engine.Protocol.Wire.{
  codes, decimal, hex_digit, hex_escape, short_escape, unicode_escape, escape, escapes, quoted,
}

-- The number that some digits stand for, behind what has been read, and what follows them.
read_digits : ℕ → List ℕ → ℕ × List ℕ
read_digits a [] = (a, [])
read_digits a (b ∷ bs) =
    let more = read_digits (a * 10 + (b - 48)) bs in
    if leb 48 b && leb b 57 then more else (a, b ∷ bs)

read_digits-decimal :
    (fuel n : ℕ) (out r : List ℕ)
    → n < fuel
    → read_digits 0 (decimal fuel n out ++ r) ≡ read_digits n (out ++ r)
unfolding decimal read_digits
read_digits-decimal zero n out r h = absurd (omega arith)
read_digits-decimal (suc fuel) n out r h = elim (Bool-cases (ltb n 10)) [
  | inl e ↦ rw e (ground arith)
  | inr e ↦
      rw e (read_digits-decimal fuel (n / 10) ((48 + n % 10) ∷ out) r (ground arith) ∙ ground arith)
]

-- No digit comes next.
abbrev pub Ends : List ℕ → Type 0
Ends [] = Unit
Ends (b ∷ bs) = (leb 48 b && leb b 57) ≡ false

read_digits-Ends : (n : ℕ) (r : List ℕ) → Ends r → read_digits n r ≡ (n, r)
unfolding read_digits
read_digits-Ends n [] h = refl
read_digits-Ends n (b ∷ r) h = rw h refl

pub decimal_splits :
    (m n : ℕ) (r s : List ℕ)
    → Ends r
    → Ends s
    → decimal (suc m) m [] ++ r ≡ decimal (suc n) n [] ++ s
    → (m ≡ n) × (r ≡ s)
decimal_splits m n r s hr hs e =
    let left = read_digits-decimal (suc m) m [] r (omega arith) ∙ read_digits-Ends m r hr in
    let right = read_digits-decimal (suc n) n [] s (omega arith) ∙ read_digits-Ends n s hs in
    ground (arith, left, right, e)

unhex : ℕ → ℕ
unhex b = if ltb b 97 then b - 48 else b - 87

unhex-hex_digit : (d : ℕ) → d < 16 → unhex (hex_digit d) ≡ d
unfolding unhex hex_digit
unhex-hex_digit d h = ground arith

abbrev value : ℕ → ℕ → ℕ → ℕ → ℕ
value a b c d = 4096 * unhex a + 256 * unhex b + 16 * unhex c + unhex d

value_hex :
    (n : ℕ)
    → n < 65536
    → value
        (hex_digit (n / 4096 % 16))
        (hex_digit (n / 256 % 16))
        (hex_digit (n / 16 % 16))
        (hex_digit (n % 16))
      ≡ n
value_hex n h = omega (
  arith,
  unhex-hex_digit (n / 4096 % 16),
  unhex-hex_digit (n / 256 % 16),
  unhex-hex_digit (n / 16 % 16),
  unhex-hex_digit (n % 16),
)

-- The second half of a surrogate pair, of which `v` is the first.
abbrev read_low : ℕ → List ℕ → ℕ × List ℕ
read_low v (x ∷ y ∷ a ∷ b ∷ c ∷ d ∷ rest) =
    (65536 + (v - 55296) * 1024 + (value a b c d - 56320), rest)
read_low v _ = (0, [])

abbrev read_hex : List ℕ → ℕ × List ℕ
read_hex (a ∷ b ∷ c ∷ d ∷ rest) =
    let v = value a b c d in if leb 55296 v && ltb v 57344 then read_low v rest else (v, rest)
read_hex _ = (0, [])

unshort : ℕ → ℕ
unshort l =
    if l == b'n'
    then 10
    else (if l == b'r'
        then 13
        else (if l == b't' then 9 else (if l == b'f' then 12 else (if l == b'b' then 8 else l))))

abbrev read_escape : List ℕ → ℕ × List ℕ
read_escape [] = (0, [])
read_escape (l ∷ rest) = if l == b'u' then read_hex rest else (unshort l, rest)

-- One character, and what follows it.
abbrev read_char : List ℕ → ℕ × List ℕ
read_char [] = (0, [])
read_char (b ∷ rest) = if b == 92 then read_escape rest else (b, rest)

abbrev Scalar : ℕ → Type 0
Scalar c = (c < 55296) ⊎ ((57343 < c) × (c < 1114112))

Scalar-code : (c : Char) → Scalar (code c)
Scalar-code (char n p) = ground arith

read_hex-hex_escape :
    (n : ℕ) (r : List ℕ)
    → n < 65536
    → (n < 55296) ⊎ (57343 < n)
    → read_char (hex_escape n ++ r) ≡ (n, r)
unfolding hex_escape
read_hex-hex_escape n r h k = ground (arith, value_hex n h)

read_pair :
    (u v : ℕ) (r : List ℕ)
    → 55296 ≤ u
    → u < 57344
    → v < 65536
    → read_char (hex_escape u ++ (hex_escape v ++ r))
      ≡ (65536 + (u - 55296) * 1024 + (v - 56320), r)
unfolding hex_escape
read_pair u v r h k l = ground (arith, value_hex u (omega arith), value_hex v l)

read_unicode : (c : ℕ) (r : List ℕ) → Scalar c → read_char (unicode_escape c ++ r) ≡ (c, r)
unfolding unicode_escape
read_unicode c r v = elim (Bool-cases (ltb c 65536)) [
  | inl e ↦ rw e (read_hex-hex_escape c r (ground arith) (ground arith))
  | inr e ↦
      let wide : 65536 ≤ c = ground arith in
      let top : c < 1114112 = ground arith in
      let sum : 65536
            + (55296 + (c - 65536) / 1024 % 1024 - 55296) * 1024
            + (56320 + (c - 65536) % 1024 - 56320)
          ≡ c =
        omega arith in
      rw e (
        ap read_char (
          append_assoc (hex_escape (55296 + (c - 65536) / 1024 % 1024))
            (hex_escape (56320 + (c - 65536) % 1024)) r)
        ∙ read_pair (55296 + (c - 65536) / 1024 % 1024) (56320 + (c - 65536) % 1024) r (omega arith)
            (omega arith) (omega arith)
        ∙ ap (λ n. (n, r)) sum)
]

read_char-escape : (c : ℕ) (r : List ℕ) → Scalar c → read_char (escape c ++ r) ≡ (c, r)
unfolding escape short_escape unshort
read_char-escape c r v = elim (Bool-cases (leb 32 c && leb c 126)) [
  | inl e ↦ ground arith
  | inr e ↦ ground (arith, read_unicode c r v)
]

-- The next byte stands for a character.
abbrev not_quote : List ℕ → Bool
not_quote [] = false
not_quote (b ∷ bs) = if b == 34 then false else true

escape-not_quote : (c : ℕ) (r : List ℕ) → not_quote (escape c ++ r) ≡ true
unfolding escape short_escape unicode_escape hex_escape
escape-not_quote c r = ground arith

not_quote_34 : (x : List ℕ) → not_quote (34 ∷ x) ≡ false
unfolding nat_eq
not_quote_34 x = refl

clash :
    (c : Char) (s : String) (x r : List ℕ)
    → not_quote r ≡ false
    → r ≢ escapes (codes (String.◌∷◌ c s)) ++ 34 ∷ x
unfolding escapes
clash c s x r h e =
    let shown = escape-not_quote (code c) (escapes (codes s) ++ 34 ∷ x) in
    true≢false (
      sym shown
      ∙ ap not_quote (sym (append_assoc (escape (code c)) _ _))
      ∙ ap not_quote (sym e)
      ∙ h)

escapes_split :
    (s t : String) (x y : List ℕ)
    → escapes (codes s) ++ 34 ∷ x ≡ escapes (codes t) ++ 34 ∷ y
    → (s ≡ t) × (x ≡ y)
unfolding escapes
escapes_split String.[] String.[] x y e = (refl, ground (arith, e))
escapes_split String.[] (String.◌∷◌ d t) x y e = absurd (clash d t y (34 ∷ x) (not_quote_34 x) e)
escapes_split (String.◌∷◌ c s) String.[] x y e =
    absurd (clash c s x (34 ∷ y) (not_quote_34 y) (sym e))
escapes_split (String.◌∷◌ c s) (String.◌∷◌ d t) x y e =
    let whole : escape (code c) ++ (escapes (codes s) ++ 34 ∷ x)
        ≡ escape (code d) ++ (escapes (codes t) ++ 34 ∷ y) =
      sym (append_assoc (escape (code c)) _ _) ∙ e ∙ append_assoc (escape (code d)) _ _ in
    let read =
      sym (read_char-escape (code c) (escapes (codes s) ++ 34 ∷ x) (Scalar-code c))
      ∙ ap read_char whole
      ∙ read_char-escape (code d) (escapes (codes t) ++ 34 ∷ y) (Scalar-code d) in
    let (same, rest) = escapes_split s t x y (ap (λ p. p.1) read) in
    let first = Char-path c d (ap (λ p. p.0) read) in (rw (first, same) refl, rest)

abbrev pub rest_of : List ℕ → List ℕ
rest_of [] = []
rest_of (b ∷ bs) = bs

pub quoted_splits :
    (s t : String) (x y : List ℕ) → quoted s ++ x ≡ quoted t ++ y → (s ≡ t) × (x ≡ y)
unfolding quoted
quoted_splits s t x y e =
    let l = append_assoc (escapes (codes s)) (34 ∷ []) x in
    let r = append_assoc (escapes (codes t)) (34 ∷ []) y in
    escapes_split s t x y (sym l ∙ ap rest_of e ∙ r)
