-- ===== src/Prelude/Sorting.antt =====
-- Array.prototype.sort with a comparison given as "comes strictly before": stable.
use mathlib.Core.Path.{◌≡◌, refl, ◌∙◌}
use mathlib.Core.Bool.{Bool, ◌&&◌}
use mathlib.Core.Logic.{inl, inr}
use mathlib.Core.List.{List, [], ◌∷◌, map}
use native.Mathlib.Omega.{arith}
use hernan_pedraza_pi_back.Prelude.Tests.{if◌then◌else◌, Bool-cases}
use hernan_pedraza_pi_back.Prelude.Lists.{count, filter}

module _ {ℓ} {A : Type ℓ} (before : A → A → Bool) where
  abbrev pub insert_by : A → List A → List A
  insert_by x [] = x ∷ []
  insert_by x (y ∷ ys) = if before y x then y ∷ insert_by x ys else x ∷ y ∷ ys

  abbrev pub sort_by : List A → List A
  sort_by [] = []
  sort_by (x ∷ xs) = insert_by x (sort_by xs)

  count-insert_by :
      (p : A → Bool) (x : A) (xs : List A) → count p (insert_by x xs) ≡ count p (x ∷ xs)
  count-insert_by p x [] = refl
  count-insert_by p x (y ∷ ys) =
      let rest = count-insert_by p x ys in
      elim (Bool-cases (before y x)) [
        | inl after ↦ ground (arith, after, rest, Bool-cases (p x), Bool-cases (p y))
        | inr here ↦ rw here
      ]

  pub count-sort_by : (p : A → Bool) (xs : List A) → count p (sort_by xs) ≡ count p xs
  count-sort_by p [] = refl
  count-sort_by p (x ∷ xs) =
      let rest = count-sort_by p xs in count-insert_by p x (sort_by xs) ∙ (ground (arith, rest))

module _ {ℓ} {A : Type ℓ} where
  pub count-filter :
      (p q : A → Bool) (xs : List A) → count p (filter q xs) ≡ count (λ x. q x && p x) xs
  count-filter p q [] = refl
  count-filter p q (x ∷ xs) =
      let rest = count-filter p q xs in
      elim (Bool-cases (q x)) [
        | inl kept ↦ ground (arith, kept, rest)
        | inr gone ↦ ground (arith, gone, rest)
      ]

  pub count-map :
      (p : A → Bool) (f : A → A) (xs : List A)
      → ((x : A) → p (f x) ≡ p x)
      → count p (map f xs) ≡ count p xs
  count-map p f [] same = refl
  count-map p f (x ∷ xs) same = let rest = count-map p f xs same in ground (arith, same x, rest)
