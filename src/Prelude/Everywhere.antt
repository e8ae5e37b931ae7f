-- ===== src/Prelude/Everywhere.antt =====
-- What holds of every element, and of some element, after sorting, cutting and mapping a list.
use Prim.Native.Nat.{ℕ, zero, suc}
use mathlib.Core.Path.{◌≡◌, refl, ap, ◌∙◌}
use mathlib.Core.Logic.{◌⊎◌, inl, inr}
use mathlib.Core.Bool.{Bool, ◌||◌}
use mathlib.Core.List.{List, [], ◌∷◌, map}
use native.Mathlib.Omega.{arith}
use hernan_pedraza_pi_back.Prelude.Tests.{Bool-cases}
use hernan_pedraza_pi_back.Prelude.Lists.{All, any, length, take}
use hernan_pedraza_pi_back.Prelude.Sorting.{insert_by, sort_by}

module _ {A : Type 0} (before : A → A → Bool) where
  All-insert_by :
      (P : A → Type 0) (x : A) (xs : List A) → P x → All P xs → All P (insert_by before x xs)
  All-insert_by P x [] p ps = (p, tt)
  All-insert_by P x (y ∷ ys) p (q, qs) = elim (Bool-cases (before y x)) [
    | inl after ↦ rw after (q, All-insert_by P x ys p qs)
    | inr here ↦ rw here (p, (q, qs))
  ]

  pub All-sort_by : (P : A → Type 0) (xs : List A) → All P xs → All P (sort_by before xs)
  All-sort_by P [] ps = tt
  All-sort_by P (x ∷ xs) (p, ps) = All-insert_by P x (sort_by before xs) p (All-sort_by P xs ps)

  any-insert_by :
      (q : A → Bool) (x : A) (xs : List A) → any q (insert_by before x xs) ≡ q x || any q xs
  any-insert_by q x [] = refl
  any-insert_by q x (y ∷ ys) =
      let rest = any-insert_by q x ys in
      elim (Bool-cases (before y x)) [
        | inl after ↦ rw (after, rest) (ground arith)
        | inr here ↦ rw here
      ]

  pub any-sort_by : (q : A → Bool) (xs : List A) → any q (sort_by before xs) ≡ any q xs
  any-sort_by q [] = refl
  any-sort_by q (x ∷ xs) =
      let rest = any-sort_by q xs in any-insert_by q x (sort_by before xs) ∙ (rw rest)

module _ {A : Type 0} where
  pub All-take : (P : A → Type 0) (n : ℕ) (xs : List A) → All P xs → All P (take n xs)
  All-take P zero xs ps = tt
  All-take P (suc n) [] ps = tt
  All-take P (suc n) (x ∷ xs) (p, ps) = (p, All-take P n xs ps)

  pub take_all : (n : ℕ) (xs : List A) → (length (take n xs) ≡ n) ⊎ (take n xs ≡ xs)
  take_all zero xs = inl refl
  take_all (suc n) [] = inr refl
  take_all (suc n) (x ∷ xs) = elim (take_all n xs) [
    | inl full ↦ inl (omega (arith, full))
    | inr same ↦ inr (ap (λ ys. x ∷ ys) same)
  ]

  pub All-map :
      {B : Type 0} (P : B → Type 0) (f : A → B) (xs : List A)
      → All (λ x. P (f x)) xs
      → All P (map f xs)
  All-map P f [] ps = tt
  All-map P f (x ∷ xs) (p, ps) = (p, All-map P f xs ps)

  pub any-map :
      {B : Type 0} (q : B → Bool) (f : A → B) (xs : List A)
      → any q (map f xs) ≡ any (λ x. q (f x)) xs
  any-map q f [] = refl
  any-map q f (x ∷ xs) = let rest = any-map q f xs in rw rest

  pub length-map : {B : Type 0} (f : A → B) (xs : List A) → length (map f xs) ≡ length xs
  length-map f [] = refl
  length-map f (x ∷ xs) = let rest = length-map f xs in rw rest
