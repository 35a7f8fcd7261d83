-- ===== src/Prelude/Text.antt =====
-- What the program uses of Go's package strings: TrimSpace, Split, Join and len.
use Prim.Native.Nat.{ℕ, compare, Ordering}
use Prim.Native.Char.{Char, code}
use Prim.Native.String.{String, ◌++◌ as ◌<>◌, len}
use mathlib.Core.Path.{◌≡◌, refl}
use mathlib.Core.Bool.{Bool, true, false, ◌&&◌, ◌||◌}
use mathlib.Core.List.{List, [], ◌∷◌}
use text.Mathlib.Text.{◌==◌}

abbrev is_code : ℕ → ℕ → Bool
is_code a b = elim (compare a b) [ Ordering.eq ↦ true | _ ↦ false ]

abbrev between : ℕ → ℕ → ℕ → Bool
between lo c hi = elim (compare c lo) [
  | Ordering.lt ↦ false
  | _ ↦ elim (compare c hi) [ Ordering.gt ↦ false | _ ↦ true ]
]

-- unicode.IsSpace, on a code point.
unfoldable pub is_space : ℕ → Bool
is_space c =
    between 9 c 13
    || is_code c 0x20
    || is_code c 0x85
    || is_code c 0xA0
    || is_code c 0x1680
    || between 0x2000 c 0x200A
    || is_code c 0x2028
    || is_code c 0x2029
    || is_code c 0x202F
    || is_code c 0x205F
    || is_code c 0x3000

unfoldable pub trim_left : String → String
unfolding is_space
trim_left String.[] = ""
trim_left (String.◌∷◌ c s) =
    let rest = trim_left s in elim (is_space (code c)) [ true ↦ rest | false ↦ String.◌∷◌ c s ]

unfoldable pub trim_right : String → String
unfolding is_space
trim_right String.[] = ""
trim_right (String.◌∷◌ c s) =
    let rest = trim_right s in
    elim (is_space (code c) && rest == "") [ true ↦ "" | false ↦ String.◌∷◌ c rest ]

-- strings.TrimSpace
unfoldable pub trim_space : String → String
unfolding trim_left trim_right
trim_space s = trim_right (trim_left s)

abbrev pub onto_first : Char → List String → List String
onto_first c [] = String.◌∷◌ c "" ∷ []
onto_first c (w ∷ ws) = String.◌∷◌ c w ∷ ws

-- strings.Split at a separator of one character.
unfoldable pub split : ℕ → String → List String
split sep String.[] = "" ∷ []
split sep (String.◌∷◌ c s) =
    let rest = split sep s in
    elim (is_code (code c) sep) [ true ↦ "" ∷ rest | false ↦ onto_first c rest ]

-- strings.Join
unfoldable pub join : String → List String → String
join sep [] = ""
join sep (w ∷ []) = w
join sep (w ∷ v ∷ ws) = w <> (sep <> join sep (v ∷ ws))

trim_space_test : trim_space " \t a b \n" ≡ "a b"
unfolding trim_space
trim_space_test = refl

split_test : split b',' "a,,b" ≡ "a" ∷ "" ∷ "b" ∷ []
unfolding split
split_test = refl

join_test : join ", " ("a" ∷ "b" ∷ []) ≡ "a, b"
unfolding join
join_test = refl

-- Go's len counts the bytes of a text.
abbrev pub byte_length : String → ℕ
byte_length = len

byte_length_test : byte_length "aλ" ≡ 3
byte_length_test = refl
