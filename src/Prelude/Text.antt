-- ===== src/Prelude/Text.antt =====
-- Rust's `str` as the list of its characters' code points, with what the programs use of it:
-- `trim`, `split`, `split_once`, the decimal `parse` of unsigned integers and their decimal `format!`.
use Prim.Native.Char.{code}
use Prim.Native.String.{String}
use systems_study.Prelude.{
  ℕ, zero, suc, ◌+◌, ◌-◌, ◌*◌, ◌/◌, ◌%◌, Bool, true, false, ◌&&◌, ◌||◌, ltb, leb, ◌==◌,
  if◌then◌else◌, Option, none, some, List, [], ◌∷◌, ◌++◌,
}

abbrev pub Text : Type 0
Text = List ℕ

abbrev pub text : String → Text
text String.[] = []
text (String.◌∷◌ c s) = code c ∷ text s

abbrev pub same_text : Text → Text → Bool
same_text [] [] = true
same_text (a ∷ s) (b ∷ t) = a == b && same_text s t
same_text _ _ = false

-- The characters with the property White_Space.
unfoldable pub is_whitespace : ℕ → Bool
is_whitespace c =
    (leb 9 c && leb c 13)
    || c == 32
    || c == 0x85
    || c == 0xa0
    || c == 0x1680
    || (leb 0x2000 c && leb c 0x200a)
    || c == 0x2028
    || c == 0x2029
    || c == 0x202f
    || c == 0x205f
    || c == 0x3000

unfoldable pub trim_start : Text → Text
trim_start [] = []
trim_start (c ∷ s) = if is_whitespace c then trim_start s else c ∷ s

-- A character before the rest, unless both go.
unfoldable pub keep_end : ℕ → Text → Text
keep_end c [] = if is_whitespace c then [] else c ∷ []
keep_end c (d ∷ s) = c ∷ d ∷ s

unfoldable pub trim_end : Text → Text
trim_end [] = []
trim_end (c ∷ s) = keep_end c (trim_end s)

unfoldable pub trim : Text → Text
trim s = trim_end (trim_start s)

-- The parts between the separators: the first one, and those after it.
unfoldable pub split_parts : ℕ → Text → Text × List Text
split_parts sep [] = ([], [])
split_parts sep (c ∷ s) =
    let (first, rest) = split_parts sep s in
    if c == sep then ([], first ∷ rest) else (c ∷ first, rest)

unfoldable pub split : ℕ → Text → List Text
unfolding split_parts
split sep s = let (first, rest) = split_parts sep s in first ∷ rest

abbrev pub put_before : ℕ → Option (Text × Text) → Option (Text × Text)
put_before c none = none
put_before c (some (a, b)) = some (c ∷ a, b)

-- What stands before and after the first separator.
unfoldable pub split_once : ℕ → Text → Option (Text × Text)
split_once sep [] = none
split_once sep (c ∷ s) = if c == sep then some ([], s) else put_before c (split_once sep s)

abbrev pub is_digit : ℕ → Bool
is_digit c = leb 48 c && leb c 57

-- The digits of a number below `bound`, after those that gave `n`.
unfoldable pub parse_digits : ℕ → Text → ℕ → Option ℕ
parse_digits bound [] n = some n
parse_digits bound (c ∷ s) n =
    let n' = n * 10 + (c - 48) in
    let rest = parse_digits bound s n' in if is_digit c && ltb n' bound then rest else none

-- `parse` of an unsigned type whose values lie below `bound`: one `+` may stand first, and some
-- digit must.
unfoldable pub parse : ℕ → Text → Option ℕ
unfolding parse_digits
parse bound [] = none
parse bound (c ∷ []) = if c == 43 then none else parse_digits bound (c ∷ []) 0
parse bound (c ∷ d ∷ s) =
    if c == 43 then parse_digits bound (d ∷ s) 0 else parse_digits bound (c ∷ d ∷ s) 0

-- The decimal digits of a number, with fuel: `suc n` is enough for `n`.
unfoldable pub digits : ℕ → ℕ → Text
digits zero n = []
digits (suc fuel) n =
    let front = digits fuel (n / 10) in
    if ltb n 10 then (n + 48) ∷ [] else front ++ (n % 10 + 48) ∷ []

unfoldable pub decimal : ℕ → Text
unfolding digits
decimal n = digits (suc n) n
