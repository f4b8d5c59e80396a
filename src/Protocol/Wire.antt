-- ===== src/Protocol/Wire.antt =====
-- The messages as JSON values, and `json.dumps` as `encode` calls it: ASCII output, `", "` and
-- `": "` for separators. Numbers are natural: the program's own are request ids and versions.
pub mod Ascii
pub mod Texts
mod Kinds
pub mod Unique
use Prim.Native.Char.{code}
use Prim.Native.Nat.{◌/◌, ◌%◌}
use dist_res_engine.Base.{
  ℕ, zero, suc, ◌+◌, ◌-◌, String, Bool, true, false, ◌&&◌, Option, none, some, List, [], ◌∷◌, ◌++◌,
  leb, ltb, ◌==◌, nat_eq, string_eq, if◌then◌else◌,
}

mutual
  pub data Json : Type 0 where
    null : Json
    bool : Bool → Json
    num : ℕ → Json
    str : String → Json
    arr : Items → Json
    obj : Fields → Json

  pub data Items : Type 0 where
    nil : Items
    cons : Json → Items → Items

  -- A dict with text for keys, in insertion order.
  pub data Fields : Type 0 where
    end : Fields
    field : String → Json → Fields → Fields

-- `message.get(key)`, and with it `message.get(key, default)`
unfoldable pub get : String → Fields → Option Json
get key end = none
get key (field k v fs) = if key == k then some v else get key fs

-- The code points of a text. `String` has its own `[]` and `∷`.
abbrev pub codes : String → List ℕ
codes String.[] = []
codes (String.◌∷◌ c s) = code c ∷ codes s

-- The decimal digits of `n`, each as its code, in front of `out`; the fuel is to exceed `n`.
unfoldable pub decimal : ℕ → ℕ → List ℕ → List ℕ
decimal zero n out = out
decimal (suc fuel) n out =
    let out' = (b'0' + n % 10) ∷ out in
    let rest = decimal fuel (n / 10) out' in if ltb n 10 then out' else rest

unfoldable pub hex_digit : ℕ → ℕ
hex_digit d = if ltb d 10 then b'0' + d else b'a' + (d - 10)

-- `\uXXXX`
unfoldable pub hex_escape : ℕ → List ℕ
unfolding hex_digit
hex_escape n =
    92
    ∷ b'u'
    ∷ hex_digit (n / 4096 % 16)
    ∷ hex_digit (n / 256 % 16)
    ∷ hex_digit (n / 16 % 16)
    ∷ hex_digit (n % 16)
    ∷ []

-- The letter behind the backslash, for the characters that have one.
unfoldable pub short_escape : ℕ → Option ℕ
short_escape c =
    if c == 34
    then some 34
    else (if c == 92
        then some 92
        else (if c == 10
            then some b'n'
            else (if c == 13
                then some b'r'
                else (if c == 9
                    then some b't'
                    else (if c == 12 then some b'f' else (if c == 8 then some b'b' else none))))))

-- Characters beyond 16 bits as surrogate pairs.
unfoldable pub unicode_escape : ℕ → List ℕ
unfolding hex_escape
unicode_escape c =
    if ltb c 65536
    then hex_escape c
    else hex_escape (55296 + (c - 65536) / 1024 % 1024) ++ hex_escape (56320 + (c - 65536) % 1024)

-- What stands for one character inside the quotes.
unfoldable pub escape : ℕ → List ℕ
unfolding short_escape unicode_escape
escape c = elim (short_escape c) [
  | some letter ↦ 92 ∷ letter ∷ []
  | none ↦ if leb 32 c && leb c 126 then c ∷ [] else unicode_escape c
]

unfoldable pub escapes : List ℕ → List ℕ
unfolding escape
escapes [] = []
escapes (c ∷ cs) = escape c ++ escapes cs

unfoldable pub quoted : String → List ℕ
unfolding escapes
quoted s = 34 ∷ (escapes (codes s) ++ 34 ∷ [])

unfoldable mutual
  unfolding decimal quoted

  pub dumps : Json → List ℕ
  dumps null = codes "null"
  dumps (bool true) = codes "true"
  dumps (bool false) = codes "false"
  dumps (num n) = decimal (suc n) n []
  dumps (str s) = quoted s
  dumps (arr xs) = b'[' ∷ (dumps_items xs ++ b']' ∷ [])
  dumps (obj fs) = b'{' ∷ (dumps_fields fs ++ b'}' ∷ [])

  pub dumps_items : Items → List ℕ
  dumps_items nil = []
  dumps_items (cons x nil) = dumps x
  dumps_items (cons x (cons y ys)) = dumps x ++ (b',' ∷ b' ' ∷ dumps_items (cons y ys))

  pub dumps_fields : Fields → List ℕ
  dumps_fields end = []
  dumps_fields (field k v end) = quoted k ++ (b':' ∷ b' ' ∷ dumps v)
  dumps_fields (field k v (field k' v' fs)) =
      quoted k ++ (b':' ∷ b' ' ∷ (dumps v ++ (b',' ∷ b' ' ∷ dumps_fields (field k' v' fs))))
