-- ===== src/Prelude/TextLaws.antt =====
-- A decimal number in a text is found again by `trim`, `split`, `split_once` and `parse`.
use systems_study.Prelude.{
  ℕ, zero, suc, ◌+◌, ◌-◌, ◌*◌, ◌/◌, ◌%◌, ◌≤◌, ◌<◌, ◌≡◌, refl, ◌∙◌, arith, ltb, Option, none, some,
  List, [], ◌∷◌, ◌++◌, Bool-cases, inl, inr,
}
use systems_study.Prelude.Text.{Text, parse_digits, parse, digits, decimal}

abbrev pub All {ℓ κ} : {A : Type ℓ} → (A → Type κ) → List A → Type κ
All P [] = Unit
All P (x ∷ xs) = P x × All P xs

pub All-append {ℓ κ} :
    {A : Type ℓ} (P : A → Type κ) (xs ys : List A) → All P xs → All P ys → All P (xs ++ ys)
All-append P [] ys hx hy = hy
All-append P (x ∷ xs) ys hx hy = (hx.0, All-append P xs ys hx.1 hy)

abbrev pub IsDigit : ℕ → Type 0
IsDigit c = (48 ≤ c) × (c ≤ 57)

-- A number that starts with a digit.
abbrev pub IsNumeral : Text → Type 0
IsNumeral [] = ⊥
IsNumeral (c ∷ s) = IsDigit c × All IsDigit s

pub IsNumeral-append : (s t : Text) → IsNumeral s → All IsDigit t → IsNumeral (s ++ t)
IsNumeral-append [] t h k = absurd h
IsNumeral-append (c ∷ s) t h k = (h.0, All-append IsDigit s t h.1 k)

pub digits-IsNumeral : (fuel n : ℕ) → n < fuel → IsNumeral (digits fuel n)
unfolding digits
digits-IsNumeral zero n h = absurd (omega arith)
digits-IsNumeral (suc fuel) n h = elim (Bool-cases (ltb n 10)) [
  | inl small ↦ rw small ((omega arith, ground arith), tt)
  | inr big ↦ rw big (
      IsNumeral-append (digits fuel (n / 10)) _ (digits-IsNumeral fuel (n / 10) (ground arith))
        ((omega arith, omega arith), tt))
]

pub decimal-IsNumeral : (n : ℕ) → IsNumeral (decimal n)
unfolding decimal
decimal-IsNumeral n = digits-IsNumeral (suc n) n (omega arith)

module _ (bound : ℕ) where
  abbrev continue : Text → Option ℕ → Option ℕ
  continue t none = none
  continue t (some n) = parse_digits bound t n

  parse_digits-append :
      (s t : Text) (n : ℕ) → parse_digits bound (s ++ t) n ≡ continue t (parse_digits bound s n)
  unfolding parse_digits
  parse_digits-append [] t n = refl
  parse_digits-append (c ∷ s) t n = ground (arith, parse_digits-append s t (n * 10 + (c - 48)))

  parse_digits-digits :
      (fuel n : ℕ) → n < fuel → n < bound → parse_digits bound (digits fuel n) 0 ≡ some n
  unfolding digits
  parse_digits-digits zero n h b = absurd (omega arith)
  parse_digits-digits (suc fuel) n h b = elim (Bool-cases (ltb n 10)) [
    | inl small ↦ rw small (unfold parse_digits in ground arith)
    | inr big ↦
        rw
          (
            big,
            parse_digits-append (digits fuel (n / 10)) ((n % 10 + 48) ∷ []) 0,
            parse_digits-digits fuel (n / 10) (ground arith) (ground arith),
          )
          (unfold parse_digits in ground arith)
  ]

  parse_numeral : (s : Text) → IsNumeral s → parse bound s ≡ parse_digits bound s 0
  unfolding parse
  parse_numeral [] h = absurd h
  parse_numeral (c ∷ []) h = ground arith
  parse_numeral (c ∷ d ∷ s) h = ground arith

  pub parse-decimal : (n : ℕ) → n < bound → parse bound (decimal n) ≡ some n
  unfolding decimal
  parse-decimal n b =
      parse_numeral (digits (suc n) n) (digits-IsNumeral (suc n) n (omega arith))
      ∙ parse_digits-digits (suc n) n (omega arith) b
