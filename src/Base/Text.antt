-- ===== src/Base/Text.antt =====
-- Strings by their code points, where the program walks them: `trim`, `toLowerCase`, comparison.
-- Lower case is exact on every result that is compared with ASCII text: beside A-Z only U+212A and
-- U+0130 have ASCII letters in their lower case, and other letters are left as they are.
use aws_architecture.Base.Tests.{ltb, leb, ◌==◌, if◌then◌else◌}
use Prim.Native.Nat.{ℕ, zero, suc, ◌+◌, ◌/◌, ◌%◌}
use Prim.Native.Char.{code}
use Prim.Native.String
use Prim.Native.String.{String}
use mathlib.Core.Bool.{Bool, true, false, ◌&&◌, ◌||◌}
use mathlib.Core.Path.{◌≡◌, refl}
use mathlib.Core.List.{List, [], ◌∷◌, ◌++◌, reverse}

abbrev pub codes : String → List ℕ
codes String.[] = []
codes (String.◌∷◌ c s) = code c ∷ codes s

-- JavaScript's `\s`, which is also what `trim` removes.
unfoldable pub is_space : ℕ → Bool
is_space c =
    (leb 9 c && leb c 13)
    || c == 32
    || c == 160
    || c == 5760
    || (leb 8192 c && leb c 8202)
    || c == 8232
    || c == 8233
    || c == 8239
    || c == 8287
    || c == 12288
    || c == 65279

unfoldable pub trim_start : List ℕ → List ℕ
unfolding is_space
trim_start [] = []
trim_start (c ∷ cs) = if is_space c then trim_start cs else c ∷ cs

unfoldable pub trim : List ℕ → List ℕ
unfolding trim_start
trim cs = reverse (trim_start (reverse (trim_start cs)))

-- `!s.trim()`.
unfoldable pub is_blank : List ℕ → Bool
unfolding is_space
is_blank [] = true
is_blank (c ∷ cs) = is_space c && is_blank cs

unfoldable pub lower : List ℕ → List ℕ
lower [] = []
lower (c ∷ cs) =
    (if leb b'A' c && leb c b'Z'
      then (c + 32) ∷ []
      else if c == 0x212a
      then b'k' ∷ []
      else if c == 0x130
      then b'i' ∷ 0x307 ∷ []
      else c ∷ [])
    ++ lower cs

unfoldable pub same_codes : List ℕ → List ℕ → Bool
same_codes [] [] = true
same_codes (x ∷ xs) (y ∷ ys) = x == y && same_codes xs ys
same_codes _ _ = false

-- Whether a list of names, given as strings, has the name with these code points.
unfoldable pub includes_codes : List String → List ℕ → Bool
unfolding same_codes
includes_codes [] cs = false
includes_codes (x ∷ xs) cs = same_codes (codes x) cs || includes_codes xs cs

digit : ℕ → String
digit d =
    if d == 0
    then "0"
    else if d == 1
    then "1"
    else if d == 2
    then "2"
    else if d == 3
    then "3"
    else if d == 4
    then "4"
    else if d == 5
    then "5"
    else if d == 6
    then "6"
    else if d == 7
    then "7"
    else if d == 8
    then "8"
    else "9"

decimal_from : ℕ → ℕ → String → String
unfolding digit
decimal_from zero n rest = rest
decimal_from (suc fuel) n rest =
    let longer = decimal_from fuel (n / 10) (String.◌++◌ (digit (n % 10)) rest) in
    if ltb n 10 then String.◌++◌ (digit n) rest else longer

-- `String(n)`; `n + 1` rounds are enough.
unfoldable pub decimal : ℕ → String
unfolding decimal_from
decimal n = decimal_from (n + 1) n ""

decimal_120 : decimal 120 ≡ "120"
unfolding decimal
decimal_120 = refl
