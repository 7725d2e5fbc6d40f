-- ===== src/Base/Text.antt =====
-- Texts: Go's `<` on strings, and the decimal notation of an index.
use Prim.Native.Nat.{ℕ, zero, suc, ◌/◌, ◌%◌}
use Prim.Native.Char.{code}
use Prim.Native.String.{String, ◌++◌}
use mathlib.Core.Bool.{Bool, true, false}
use mathlib.Core.List.{List}
use mathlib.Core.List as L
use gezerah.Base.Tests.{ltb, nat_beq, if◌then◌else◌}

-- Go compares bytes; on UTF-8 that is the order of the code points.
unfoldable pub text_ltb : String → String → Bool
text_ltb String.[] String.[] = false
text_ltb String.[] (String.◌∷◌ d t) = true
text_ltb (String.◌∷◌ c s) String.[] = false
text_ltb (String.◌∷◌ c s) (String.◌∷◌ d t) =
    if ltb (code c) (code d)
    then true
    else if nat_beq (code c) (code d)
    then text_ltb s t
    else false

abbrev pub codes : String → List ℕ
codes String.[] = L.[]
codes (String.◌∷◌ c s) = L.◌∷◌ (code c) (codes s)

digit_text : ℕ → String
digit_text n =
    if nat_beq n 0
    then "0"
    else if nat_beq n 1
    then "1"
    else if nat_beq n 2
    then "2"
    else if nat_beq n 3
    then "3"
    else if nat_beq n 4
    then "4"
    else if nat_beq n 5
    then "5"
    else if nat_beq n 6
    then "6"
    else if nat_beq n 7
    then "7"
    else if nat_beq n 8
    then "8"
    else "9"

decimal_digits : ℕ → ℕ → String
decimal_digits zero n = ""
decimal_digits (suc fuel) n =
    let front = decimal_digits fuel (n / 10) in
    if ltb n 10 then digit_text n else front ++ digit_text (n % 10)

-- fmt's `%d` of an index: a number has at most as many digits as its value and one.
unfoldable pub show_ℕ : ℕ → String
unfolding digit_text decimal_digits
show_ℕ n = decimal_digits (suc n) n

-- The paths of validation errors: `path[3]`, `path[key]`, `path.name`.
pub indexed : String → ℕ → String
unfolding show_ℕ
indexed path i = path ++ "[" ++ show_ℕ i ++ "]"

pub keyed : String → String → String
keyed path key = path ++ "[" ++ key ++ "]"

pub dotted : String → String → String
dotted path name = path ++ "." ++ name

-- strings.Join
unfoldable pub join_texts : String → List String → String
join_texts separator L.[] = ""
join_texts separator (L.◌∷◌ s L.[]) = s
join_texts separator (L.◌∷◌ s (L.◌∷◌ t r)) = s ++ separator ++ join_texts separator (L.◌∷◌ t r)
