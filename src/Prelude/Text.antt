-- ===== src/Prelude/Text.antt =====
-- The functions of Go's `strings` that the code calls, on texts as lists of characters.
-- `strings.ToLower` is modelled on ASCII: the code compares its results with ASCII words only.
use Prim.Native.Char.{Char, code}
use Prim.Native.Nat.{ℕ, ◌+◌}
use Prim.Native.String.{String}
use hookwatch.Prelude.Tests.{if◌then◌else◌, leb, ltb, nat_eq, string_eq, ◌==◌}
use mathlib.Core.Bool.{Bool, false, ◌&&◌, ◌||◌}
use mathlib.Core.List.{List, [], ◌∷◌}
use mathlib.Core.Logic.{◌≢◌}
use mathlib.Core.Option.{Option, none, some}
use mathlib.Core.Path.{refl, ◌≡◌}
use native.Mathlib.Omega.{arith}
use text.Mathlib.TextEquality.{eq_iff}

-- unicode.IsSpace
unfoldable pub is_space : ℕ → Bool
is_space c =
    (leb 9 c && leb c 13)
    || c == 32
    || c == 133
    || c == 160
    || c == 5760
    || (leb 8192 c && leb c 8202)
    || c == 8232
    || c == 8233
    || c == 8239
    || c == 8287
    || c == 12288

unfoldable pub trim_left : String → String
trim_left String.[] = String.[]
trim_left (String.◌∷◌ c s) = if is_space (code c) then trim_left s else String.◌∷◌ c s

-- The text without the spaces at its end.
unfoldable pub trim_right : String → String
trim_right String.[] = String.[]
trim_right (String.◌∷◌ c s) =
    let rest = trim_right s in
    elim rest [
      | String.[] ↦ if is_space (code c) then String.[] else String.◌∷◌ c String.[]
      | String.◌∷◌ d r ↦ String.◌∷◌ c (String.◌∷◌ d r)
    ]

-- strings.TrimSpace
unfoldable pub trim_space : String → String
unfolding trim_left trim_right is_space
trim_space s = trim_right (trim_left s)

test_trim : trim_space "  a b \n" ≡ "a b"
unfolding trim_space
test_trim = refl

-- The lower-case letter of each upper-case one.
abbrev lower_letters : List (ℕ × Char)
lower_letters =
    (b'A', "a")
    ∷ (b'B', "b")
    ∷ (b'C', "c")
    ∷ (b'D', "d")
    ∷ (b'E', "e")
    ∷ (b'F', "f")
    ∷ (b'G', "g")
    ∷ (b'H', "h")
    ∷ (b'I', "i")
    ∷ (b'J', "j")
    ∷ (b'K', "k")
    ∷ (b'L', "l")
    ∷ (b'M', "m")
    ∷ (b'N', "n")
    ∷ (b'O', "o")
    ∷ (b'P', "p")
    ∷ (b'Q', "q")
    ∷ (b'R', "r")
    ∷ (b'S', "s")
    ∷ (b'T', "t")
    ∷ (b'U', "u")
    ∷ (b'V', "v")
    ∷ (b'W', "w")
    ∷ (b'X', "x")
    ∷ (b'Y', "y")
    ∷ (b'Z', "z")
    ∷ []

lower_in : List (ℕ × Char) → Char → Char
lower_in [] c = c
lower_in ((upper, lower) ∷ more) c = if code c == upper then lower else lower_in more c

-- strings.ToLower
unfoldable pub to_lower : String → String
unfolding lower_in
to_lower String.[] = String.[]
to_lower (String.◌∷◌ c s) = String.◌∷◌ (lower_in lower_letters c) (to_lower s)

test_lower : to_lower "GitHub-9" ≡ "github-9"
unfolding to_lower
test_lower = refl

-- The upper-case letter of each lower-case one.
abbrev upper_letters : List (ℕ × Char)
upper_letters =
    (b'a', "A")
    ∷ (b'b', "B")
    ∷ (b'c', "C")
    ∷ (b'd', "D")
    ∷ (b'e', "E")
    ∷ (b'f', "F")
    ∷ (b'g', "G")
    ∷ (b'h', "H")
    ∷ (b'i', "I")
    ∷ (b'j', "J")
    ∷ (b'k', "K")
    ∷ (b'l', "L")
    ∷ (b'm', "M")
    ∷ (b'n', "N")
    ∷ (b'o', "O")
    ∷ (b'p', "P")
    ∷ (b'q', "Q")
    ∷ (b'r', "R")
    ∷ (b's', "S")
    ∷ (b't', "T")
    ∷ (b'u', "U")
    ∷ (b'v', "V")
    ∷ (b'w', "W")
    ∷ (b'x', "X")
    ∷ (b'y', "Y")
    ∷ (b'z', "Z")
    ∷ []

-- strings.ToUpper, on ASCII
unfoldable pub to_upper : String → String
unfolding lower_in
to_upper String.[] = String.[]
to_upper (String.◌∷◌ c s) = String.◌∷◌ (lower_in upper_letters c) (to_upper s)

test_upper : to_upper "put-9" ≡ "PUT-9"
unfolding to_upper
test_upper = refl

abbrev rune_len : ℕ → ℕ
rune_len c = if ltb c 128 then 1 else if ltb c 2048 then 2 else if ltb c 65536 then 3 else 4

-- Go's `len` of a string: the bytes of its characters in UTF-8.
unfoldable pub byte_len : String → ℕ
byte_len String.[] = 0
byte_len (String.◌∷◌ c s) = rune_len (code c) + byte_len s

-- strings.HasPrefix and strings.TrimPrefix in one: what follows the prefix, if it is there.
unfoldable pub cut_prefix : String → String → Option String
cut_prefix String.[] s = some s
cut_prefix (String.◌∷◌ p ps) String.[] = none
cut_prefix (String.◌∷◌ p ps) (String.◌∷◌ c s) =
    let rest = cut_prefix ps s in if code p == code c then rest else none

test_cut : cut_prefix "sha256=" "sha256=ab" ≡ some "ab"
unfolding cut_prefix
test_cut = refl

-- strings.Cut at one character: the parts before and after its first occurrence.
unfoldable pub cut : ℕ → String → Option (String × String)
cut sep String.[] = none
cut sep (String.◌∷◌ c s) =
    let rest = cut sep s in
    if code c == sep
    then some (String.[], s)
    else elim rest [ none ↦ none | some (a, b) ↦ some (String.◌∷◌ c a, b) ]

unfoldable pub cons_first : Char → List String → List String
cons_first c [] = (String.◌∷◌ c String.[]) ∷ []
cons_first c (w ∷ ws) = (String.◌∷◌ c w) ∷ ws

-- strings.Split at one character.
unfoldable pub split : ℕ → String → List String
unfolding cons_first
split sep String.[] = String.[] ∷ []
split sep (String.◌∷◌ c s) =
    let rest = split sep s in if code c == sep then String.[] ∷ rest else cons_first c rest

test_split : split b',' "t=1,v1=a" ≡ "t=1" ∷ "v1=a" ∷ []
unfolding split
test_split = refl

test_chop : cut b'=' "t=1=2" ≡ some ("t", "1=2")
unfolding cut
test_chop = refl

pub differs : (a b : String) → (a == b) ≡ false → a ≢ b
differs a b h e = ground (arith, h, (eq_iff a b).1 e)
