-- ===== src/Prelude/Owned/Tidy.antt =====
-- On every error path all that was acquired is released again, the last one first.
use systems_study.Prelude.{
  ◌≡◌, refl, ap, sym, ◌∙◌, Bool, true, false, if◌then◌else◌, List, [], ◌∷◌, ◌++◌, map, append_assoc,
  append-nil,
}
use systems_study.Prelude.Result.{Result, ok, err, bind_result}
use systems_study.Prelude.Owned.{
  Resource, Event, acquired, released, Process, Owner, answered, opened, dropping, keeping, require,
}

-- Acquired one after the other, and released in the opposite order.
abbrev pub nested : List Resource → List Event
nested [] = []
nested (r ∷ rs) = acquired r ∷ (nested rs ++ released r ∷ [])

-- What an action that starts with the log `l` may leave: a good result, or an error with nothing
-- held that was not held before.
abbrev pub Tidy :
    {K E A : Type 0} → (A → List Event → Type 0) → List Event → Result E A × Process K → Type 0
Tidy good l (ok a, p) = good a p.log
Tidy good l (err e, p) = (rs : List Resource) × (p.log ≡ l ++ nested rs)

module _ {K E F A B : Type 0} (os : F → E) (good : B → List Event → Type 0) (l : List Event) where
  pub Tidy-answered :
      (p : Process K) (r : Result F A × K) (f : A → Owner K E B)
      → p.log ≡ l
      → ((a : A) (q : Process K) → q.log ≡ l → Tidy good l (f a q))
      → Tidy good l (bind_result (answered os p r) f)
  Tidy-answered p (ok a, k) f e h = h a (record p { kernel = k }) e
  Tidy-answered p (err x, k) f e h = ([], e ∙ sym (append-nil l))

  -- A call that gives a resource, with the value that the kernel gave.
  pub Tidy-opened :
      (held : A → Resource) (p : Process K) (r : Result F A × K) (f : A → Owner K E B)
      → p.log ≡ l
      → ((a : A) (q : Process K)
          → r.0 ≡ ok a
          → q.log ≡ l ++ acquired (held a) ∷ []
          → Tidy good l (f a q))
      → Tidy good l (bind_result (opened os held p r) f)
  Tidy-opened held p (ok a, k) f e h =
      h a (record p { kernel = k; log = p.log ++ acquired (held a) ∷ [] }) refl
        (ap (λ t. t ++ acquired (held a) ∷ []) e)
  Tidy-opened held p (err x, k) f e h = ([], e ∙ sym (append-nil l))

module _ {K E B : Type 0} (good : B → List Event → Type 0) (l : List Event) where
  pub Tidy-require :
      (b : Bool) (x : E) (m : Owner K E B) (p : Process K)
      → p.log ≡ l
      → (b ≡ true → Tidy good l (m p))
      → Tidy good l (bind_result (require b x p) (λ _. m))
  Tidy-require true x m p e h = h refl
  Tidy-require false x m p e h = ([], e ∙ sym (append-nil l))

  pub Tidy-if :
      (b : Bool) (x y : Result E B × Process K)
      → (b ≡ true → Tidy good l x)
      → Tidy good l y
      → Tidy good l (if b then x else y)
  Tidy-if true x y h h' = h refl
  Tidy-if false x y h h' = h'

  pub Tidy-bind :
      {A : Type 0} (mid : A → List Event → Type 0) (a : Result E A × Process K)
      (f : A → Owner K E B)
      → Tidy mid l a
      → ((x : A) (q : Process K) → mid x q.log → Tidy good l (f x q))
      → Tidy good l (bind_result a f)
  Tidy-bind mid (ok x, q) f m h = h x q m
  Tidy-bind mid (err e, q) f m h = m

  pub Tidy-dropping :
      (r : Resource) (a : Result E B × Process K)
      → Tidy good (l ++ acquired r ∷ []) a
      → Tidy good l (dropping r a)
  Tidy-dropping r (ok a, p) h = h
  Tidy-dropping r (err x, p) (rs, h) = (
    r ∷ rs,
    ap (λ t. t ++ released r ∷ []) h
        ∙ append_assoc (l ++ acquired r ∷ []) (nested rs) (released r ∷ [])
        ∙ append_assoc l (acquired r ∷ []) (nested rs ++ released r ∷ []),
  )

  pub Tidy-keeping :
      (r : Resource) (m : Owner K E B) (p : Process K)
      → Tidy good (l ++ acquired r ∷ []) (m p)
      → Tidy good l (keeping r m p)
  Tidy-keeping r m p = Tidy-dropping r (m p)

-- The log `b`, and what was acquired since.
abbrev pub grown : List Event → List Resource → List Event
grown b [] = b
grown b (r ∷ rs) = grown (b ++ acquired r ∷ []) rs

pub grown_lem : (b : List Event) (rs : List Resource) → grown b rs ≡ b ++ map acquired rs
grown_lem b [] = sym (append-nil b)
grown_lem b (r ∷ rs) =
    grown_lem (b ++ acquired r ∷ []) rs ∙ append_assoc b (acquired r ∷ []) (map acquired rs)

pub log-answered :
    {K E F A : Type 0} (os : F → E) (p : Process K) (r : Result F A × K)
    → (answered os p r).1.log ≡ p.log
log-answered os p (ok a, k) = refl
log-answered os p (err e, k) = refl

-- Of a weaker promise, at an equal log.
pub Tidy-weaken :
    {K E A : Type 0} (good good' : A → List Event → Type 0) {l l' : List Event}
    (r : Result E A × Process K)
    → l ≡ l'
    → ((a : A) (log : List Event) → good a log → good' a log)
    → Tidy good l r
    → Tidy good' l' r
Tidy-weaken good good' (ok a, p) e h t = h a p.log t
Tidy-weaken good good' (err x, p) e h (rs, t) = (rs, t ∙ ap (λ k. k ++ nested rs) e)
