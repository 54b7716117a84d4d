-- ===== src/Prelude/Text.antt =====
-- Text: the string operations of the standard library that the program calls.
use Prim.Native.Nat.{ℕ, zero, suc, ◌+◌, ◌/◌, ◌%◌}
use Prim.Native.Char.{code}
use Prim.Native.String
use Prim.Native.String.{String}
use mathlib.Core.Bool.{Bool, true, false, ◌&&◌, ◌||◌}
use mathlib.Core.List.{List, [], ◌∷◌}
use quic_serve.Prelude.Tests.{leb, ltb, ◌==◌, if◌then◌else◌}

-- `format!` joins its pieces.
infixr 65 ◌<>◌
abbrev pub ◌<>◌ : String → String → String
s <> t = String.◌++◌ s t

-- The code points of a text.
abbrev pub codes : String → List ℕ
codes String.[] = []
codes (String.◌∷◌ c s) = code c ∷ codes s

-- `char::to_lowercase` on ASCII; a character outside ASCII stays as it is.
abbrev pub lower : ℕ → ℕ
lower c = if leb b'A' c && leb c b'Z' then c + 32 else c

-- `str::to_lowercase` as code points. Outside ASCII only U+212A and U+0130 have a lower case with an
-- ASCII letter, k and i, so a comparison with a text in which neither occurs is the same as Rust's.
unfoldable pub to_lowercase : String → List ℕ
to_lowercase String.[] = []
to_lowercase (String.◌∷◌ c s) = lower (code c) ∷ to_lowercase s

-- Equality of texts given by their code points.
abbrev pub codes_eq : List ℕ → List ℕ → Bool
codes_eq [] [] = true
codes_eq (a ∷ as') (b ∷ bs) = a == b && codes_eq as' bs
codes_eq _ _ = false

-- `str::contains(char)`
unfoldable pub contains : ℕ → String → Bool
contains c String.[] = false
contains c (String.◌∷◌ d s) = code d == c || contains c s

abbrev digit : ℕ → String
digit d =
    if d == 0
    then "0"
    else if d == 1
    then "1"
    else if d == 2
    then "2"
    else if d == 3
    then "3"
    else if d == 4
    then "4"
    else if d == 5
    then "5"
    else if d == 6
    then "6"
    else if d == 7
    then "7"
    else if d == 8
    then "8"
    else "9"

decimal_fuel : ℕ → ℕ → String
decimal_fuel zero n = ""
decimal_fuel (suc f) n =
    let rest = decimal_fuel f (n / 10) in if ltb n 10 then digit n else (rest <> digit (n % 10))

-- `{}` of a number below 10 ^ 20, which has at most 20 digits; every `u64` is one.
unfoldable pub decimal : ℕ → String
unfolding decimal_fuel
decimal n = decimal_fuel 20 n
