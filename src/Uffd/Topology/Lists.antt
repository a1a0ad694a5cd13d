-- ===== src/Uffd/Topology/Lists.antt =====
-- A CPU list that is written as the kernel writes it is read back by `read_list`.
use systems_study.Prelude.{
  ℕ, ◌≤◌, ◌<◌, ◌≡◌, refl, ap, arith, false, true, none, some, List, [], ◌∷◌, ◌++◌,
}
use systems_study.Prelude.Word.{u64_mod}
use systems_study.Prelude.Text.{
  Text, is_whitespace, trim_start, keep_end, trim_end, trim, split_parts, split, split_once,
  decimal,
}
use systems_study.Prelude.TextLaws.{
  All, All-append, IsDigit, IsNumeral, decimal-IsNumeral, parse-decimal,
}
use systems_study.Uffd.Topology.{range_inclusive, read_part, read_parts, read_list, parse_usize}

-- The kernel's format: single CPUs and ranges, in decimal, between commas.
pub data Item : Type 0 where
  single : ℕ → Item
  span : ℕ → ℕ → Item

abbrev pub IsItem : Item → Type 0
IsItem (single n) = n < u64_mod
IsItem (span a b) = (a < u64_mod) × (b < u64_mod)

unfoldable pub render_item : Item → Text
render_item (single n) = decimal n
render_item (span a b) = decimal a ++ b'-' ∷ decimal b

unfoldable pub render : Item → List Item → Text
unfolding render_item
render i [] = render_item i
render i (j ∷ rest) = render_item i ++ b',' ∷ render j rest

abbrev pub cpus : Item → List ℕ
cpus (single n) = n ∷ []
cpus (span a b) = range_inclusive a b

abbrev pub all_cpus : List Item → List ℕ
all_cpus [] = []
all_cpus (i ∷ rest) = cpus i ++ all_cpus rest

-- The characters of a list: digits, `-` and `,`.
abbrev IsListed : ℕ → Type 0
IsListed c = (44 ≤ c) × (c ≤ 57)

abbrev IsPart : ℕ → Type 0
IsPart c = (45 ≤ c) × (c ≤ 57)

IsDigit-IsPart : (s : Text) → All IsDigit s → All IsPart s
IsDigit-IsPart [] h = tt
IsDigit-IsPart (c ∷ s) h = ((omega arith, omega arith), IsDigit-IsPart s h.1)

IsNumeral-IsDigit : (s : Text) → IsNumeral s → All IsDigit s
IsNumeral-IsDigit [] h = absurd h
IsNumeral-IsDigit (c ∷ s) h = h

IsPart-IsListed : (s : Text) → All IsPart s → All IsListed s
IsPart-IsListed [] h = tt
IsPart-IsListed (c ∷ s) h = ((omega arith, omega arith), IsPart-IsListed s h.1)

listed_no_space : (c : ℕ) → IsListed c → is_whitespace c ≡ false
unfolding is_whitespace
listed_no_space c h = ground arith

newline_space : is_whitespace 10 ≡ true
unfolding is_whitespace
newline_space = refl

trim_end-newline : (s : Text) → All IsListed s → trim_end (s ++ 10 ∷ []) ≡ s
unfolding trim_end keep_end
trim_end-newline [] h = rw newline_space
trim_end-newline (c ∷ []) h = ground (arith, listed_no_space c, trim_end-newline [])
trim_end-newline (c ∷ d ∷ s) h = rw (trim_end-newline (d ∷ s) h.1)

trim_end-All : (s : Text) → All IsListed s → trim_end s ≡ s
unfolding trim_end keep_end
trim_end-All [] h = refl
trim_end-All (c ∷ []) h = ground (arith, listed_no_space c)
trim_end-All (c ∷ d ∷ s) h = rw (trim_end-All (d ∷ s) h.1)

trim_start_all : (c : ℕ) (s : Text) → IsListed c → trim_start (c ∷ s) ≡ c ∷ s
unfolding trim_start
trim_start_all c s h = rw (listed_no_space c h)

-- A text of a list that is followed by a newline.
trim-newline : (s : Text) → All IsListed s → trim (s ++ 10 ∷ []) ≡ s
unfolding trim
trim-newline [] h = unfold trim_start trim_end in rw newline_space
trim-newline (c ∷ s) h = rw (trim_start_all c (s ++ 10 ∷ []) h.0) (trim_end-newline (c ∷ s) h)

trim-All : (s : Text) → All IsListed s → trim s ≡ s
unfolding trim
trim-All [] h = unfold trim_start trim_end in refl
trim-All (c ∷ s) h = rw (trim_start_all c s h.0) (trim_end-All (c ∷ s) h)

split_parts-part :
    (s t : Text)
    → All IsPart s
    → split_parts b',' (s ++ b',' ∷ t) ≡ (s, (split_parts b',' t).0 ∷ (split_parts b',' t).1)
unfolding split_parts
split_parts-part [] t h = refl
split_parts-part (c ∷ s) t h = ground (arith, split_parts-part s t h.1)

split_parts_part : (s : Text) → All IsPart s → split_parts b',' s ≡ (s, [])
unfolding split_parts
split_parts_part [] h = refl
split_parts_part (c ∷ s) h = ground (arith, split_parts_part s h.1)

split_once_digits : (s : Text) → All IsDigit s → split_once b'-' s ≡ none
unfolding split_once
split_once_digits [] h = refl
split_once_digits (c ∷ s) h = ground (arith, split_once_digits s h.1)

split_once-digits : (s t : Text) → All IsDigit s → split_once b'-' (s ++ b'-' ∷ t) ≡ some (s, t)
unfolding split_once
split_once-digits [] t h = refl
split_once-digits (c ∷ s) t h = ground (arith, split_once-digits s t h.1)

decimal-IsPart : (n : ℕ) → All IsPart (decimal n)
decimal-IsPart n = IsDigit-IsPart (decimal n) (IsNumeral-IsDigit (decimal n) (decimal-IsNumeral n))

decimal-IsDigit : (n : ℕ) → All IsDigit (decimal n)
decimal-IsDigit n = IsNumeral-IsDigit (decimal n) (decimal-IsNumeral n)

parse-trim-decimal : (n : ℕ) → n < u64_mod → parse_usize (trim (decimal n)) ≡ some n
parse-trim-decimal n h =
    rw (trim-All (decimal n) (IsPart-IsListed (decimal n) (decimal-IsPart n)))
      (parse-decimal u64_mod n h)

render_item-IsPart : (i : Item) → All IsPart (render_item i)
unfolding render_item
render_item-IsPart (single n) = decimal-IsPart n
render_item-IsPart (span a b) =
    All-append IsPart (decimal a) (b'-' ∷ decimal b) (decimal-IsPart a)
      ((omega arith, omega arith), decimal-IsPart b)

read_part-render_item : (i : Item) → IsItem i → read_part (render_item i) ≡ cpus i
unfolding read_part render_item
read_part-render_item (single n) h =
    rw (split_once_digits (decimal n) (decimal-IsDigit n), read_part) (rw (parse-trim-decimal n h))
read_part-render_item (span a b) h =
    rw (split_once-digits (decimal a) (decimal b) (decimal-IsDigit a), read_part)
      (rw (parse-trim-decimal a h.0, parse-trim-decimal b h.1))

render-IsListed : (i : Item) (rest : List Item) → All IsListed (render i rest)
unfolding render
render-IsListed i [] = IsPart-IsListed (render_item i) (render_item-IsPart i)
render-IsListed i (j ∷ rest) =
    All-append IsListed (render_item i) (b',' ∷ render j rest)
      (IsPart-IsListed (render_item i) (render_item-IsPart i))
      ((omega arith, omega arith), render-IsListed j rest)

read_parts-render :
    (i : Item) (rest : List Item)
    → IsItem i
    → All IsItem rest
    → read_parts (split b',' (render i rest)) ≡ all_cpus (i ∷ rest)
unfolding read_parts render split
read_parts-render i [] h hs =
    rw (split_parts_part (render_item i) (render_item-IsPart i), read_part-render_item i h)
read_parts-render i (j ∷ rest) h hs =
    rw
      (
        split_parts-part (render_item i) (render j rest) (render_item-IsPart i),
        read_part-render_item i h,
      )
      (ap (λ (l : List ℕ). cpus i ++ l) (read_parts-render j rest hs.0 hs.1))

-- A CPU list in the kernel's format, with single CPUs and ranges below 2^64 and the newline at its
-- end, is read by read_list as exactly the CPUs that it lists, in its order; a range whose end is
-- below its start lists none.
pub read_list-render :
    (i : Item) (rest : List Item)
    → IsItem i
    → All IsItem rest
    → read_list (some (render i rest ++ 10 ∷ [])) ≡ all_cpus (i ∷ rest)
unfolding read_list
read_list-render i rest h hs =
    rw (trim-newline (render i rest) (render-IsListed i rest)) (read_parts-render i rest h hs)
