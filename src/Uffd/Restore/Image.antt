-- ===== src/Uffd/Restore/Image.antt =====
-- The image of the demonstration, and what is known of its pages while they are restored.
use systems_study.Prelude.{
  ℕ, zero, suc, ◌+◌, ◌-◌, ◌*◌, ◌/◌, ◌%◌, ◌<◌, ◌≡◌, ◌≢◌, refl, ap, ◌∙◌, arith, true, ltb,
  if◌then◌else◌, Option, none, some, List, ◌∷◌, ◌++◌, replicate, get_elem?, Bool-cases, inl, inr,
  ◌⊎◌,
}
use systems_study.Bench.Stats.Sorting.{count}
use systems_study.Uffd.Handler.{page}
use systems_study.Uffd.Restore.{image_from}

get_elem?-replicate : (n b i : ℕ) (l : List ℕ) → i < n → get_elem? (replicate n b ++ l) i ≡ some b
get_elem?-replicate zero b i l h = absurd (omega arith)
get_elem?-replicate (suc n) b zero l h = refl
get_elem?-replicate (suc n) b (suc i) l h = get_elem?-replicate n b i l (omega arith)

get_elem?-past : (n b i : ℕ) (l : List ℕ) → get_elem? (replicate n b ++ l) (n + i) ≡ get_elem? l i
get_elem?-past zero b i l = ap (get_elem? l) (omega arith)
get_elem?-past (suc n) b i l =
    let e : suc n + i ≡ suc (n + i) = omega arith in rw e (get_elem?-past n b i l)

-- The byte at a place of the image is the number of its page.
pub image_at :
    (p n i : ℕ) → i < n * page → get_elem? (image_from p n) i ≡ some ((p + i / page) % 256)
unfolding image_from
image_at p zero i h = absurd (omega arith)
image_at p (suc n) i h = elim (Bool-cases (ltb i page)) [
  | inl e ↦
      get_elem?-replicate page (p % 256) i (image_from (suc p) n) (ground arith)
      ∙ ap (λ (x : ℕ). some (x % 256)) (ground arith)
  | inr e ↦
      let j = i - page in
      let at : i ≡ page + j = ground arith in
      let d : suc p + j / page ≡ p + (page + j) / page = omega arith in
      rw (at, ← d)
        (get_elem?-past page (p % 256) j (image_from (suc p) n)
          ∙ image_at (suc p) n j (ground arith))
]

pub image_page : (n q : ℕ) → q < n → get_elem? (image_from 0 n) (q * page) ≡ some (q % 256)
image_page n q h =
    image_at 0 n (q * page) (omega arith) ∙ ap (λ (x : ℕ). some (x % 256)) (omega arith)

pub lt_trichotomy : (a b : ℕ) → (a < b) ⊎ (a ≡ b) ⊎ (b < a)
lt_trichotomy a b = ground arith

pub some_inj : {a b : ℕ} → some a ≡ some b → a ≡ b
some_inj e = cc

-- What is known of a page after one more touch.
abbrev pub expected : ℕ → List ℕ → Option ℕ
expected q touched = if ltb 0 (count q touched) then some (q % 256) else none

pub expected_again :
    (p q : ℕ) (touched : List ℕ)
    → ltb 0 (count p touched) ≡ true
    → expected q touched ≡ expected q (p ∷ touched)
expected_again p q touched e = ground arith

pub expected_other :
    (p q : ℕ) (touched : List ℕ) → q ≢ p → expected q touched ≡ expected q (p ∷ touched)
expected_other p q touched n = ground arith

pub expected_self : (p : ℕ) (touched : List ℕ) → some (p % 256) ≡ expected p (p ∷ touched)
expected_self p touched = ground arith
