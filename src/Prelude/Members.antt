-- ===== src/Prelude/Members.antt =====
-- Tests over a list as statements about its members.
use Prim.Native.Nat.{◌+◌}
use mathlib.Core.Path.{◌≡◌, refl}
use mathlib.Core.Logic.{inl, inr}
use mathlib.Core.Bool.{Bool, true, false}
use mathlib.Core.Option.{none, some}
use mathlib.Core.List.{List, [], ◌∷◌, ◌++◌, Memᴰ}
use native.Mathlib.Omega.{arith}
use hernan_pedraza_pi_back.Prelude.Tests.{if◌then◌else◌, Bool-cases}
use hernan_pedraza_pi_back.Prelude.Lists.{any, find?, count, modify}

module _ {ℓ} {A : Type ℓ} (p : A → Bool) where
  pub any-mem : (xs : List A) → any p xs ≡ true → (x : A) × Memᴰ x xs × (p x ≡ true)
  any-mem [] h = cc
  any-mem (x ∷ xs) h = elim (Bool-cases (p x)) [
    | inl e ↦ (x, Memᴰ.head refl, e)
    | inr e ↦ let (y, there, q) = any-mem xs (rw e at h) in (y, Memᴰ.tail there, q)
  ]

  pub mem-any : (xs : List A) (x : A) → Memᴰ x xs → p x ≡ true → any p xs ≡ true
  mem-any [] x there q = elim there [ ]
  mem-any (y ∷ ys) x (Memᴰ.head e) q = rw (← e, q)
  mem-any (y ∷ ys) x (Memᴰ.tail t) q = elim (Bool-cases (p y)) [
    | inl e ↦ rw e
    | inr e ↦ rw (e, mem-any ys x t q)
  ]

  -- What `find` returns passes the test and stands in the list.
  pub find?-mem : (xs : List A) (a : A) → find? p xs ≡ some a → Memᴰ a xs × (p a ≡ true)
  find?-mem [] a h = cc
  find?-mem (x ∷ xs) a h = elim (Bool-cases (p x)) [
    | inl e ↦ let same : x ≡ a = (ground (arith, e)) in (Memᴰ.head (cc), rw (← same) e)
    | inr e ↦ let (there, q) = find?-mem xs a (rw e at h) in (Memᴰ.tail there, q)
  ]

  pub find?-none : (xs : List A) (a : A) → find? p xs ≡ none → Memᴰ a xs → p a ≡ false
  find?-none [] a h there = elim there [ ]
  find?-none (y ∷ ys) a h (Memᴰ.head e) = rw e (ground arith)
  find?-none (y ∷ ys) a h (Memᴰ.tail t) = elim (Bool-cases (p y)) [
    | inl e ↦ cc (rw e at h)
    | inr e ↦ find?-none ys a (rw e at h) t
  ]

  pub find?-append :
      (xs : List A) (q : A) → find? p xs ≡ none → p q ≡ true → find? p (xs ++ q ∷ []) ≡ some q
  find?-append [] q missing here = rw here
  find?-append (x ∷ xs) q missing here = elim (Bool-cases (p x)) [
    | inl hit ↦ cc (rw hit at missing)
    | inr miss ↦ rw miss (find?-append xs q (rw miss at missing) here)
  ]

  pub count-append : (xs ys : List A) → count p (xs ++ ys) ≡ count p xs + count p ys
  count-append [] ys = omega arith
  count-append (x ∷ xs) ys = ground (arith, count-append xs ys)

  pub count_of_find?-none : (xs : List A) → find? p xs ≡ none → count p xs ≡ 0
  count_of_find?-none [] missing = refl
  count_of_find?-none (x ∷ xs) missing = elim (Bool-cases (p x)) [
    | inl hit ↦ cc (rw hit at missing)
    | inr miss ↦ rw miss (count_of_find?-none xs (rw miss at missing))
  ]

  -- A change that keeps the outcome of a test keeps the number of elements that pass.
  pub count-modify :
      (q : A → Bool) (f : A → A) (xs : List A)
      → ((x : A) → Memᴰ x xs → q x ≡ true → p (f x) ≡ p x)
      → count p (modify q f xs) ≡ count p xs
  count-modify q f [] keep = refl
  count-modify q f (x ∷ xs) keep =
      let rest : count p (modify q f xs) ≡ count p xs =
        count-modify q f xs (λ y there. keep y (Memᴰ.tail there)) in
      elim (Bool-cases (q x)) [
        | inl hit ↦ ground (arith, hit, keep x (Memᴰ.head refl) hit)
        | inr miss ↦ ground (arith, miss)
      ]

  -- A change that keeps the outcome of a test of every element leads to the changed first one.
  pub find?-modify :
      (q : A → Bool) (f : A → A) (xs : List A) {a : A}
      → ((x : A) → Memᴰ x xs → q x ≡ true → p (f x) ≡ p x)
      → find? p xs ≡ some a
      → find? p (modify q f xs) ≡ some (if q a then f a else a)
  find?-modify q f [] keep found = cc
  find?-modify q f (x ∷ xs) {a} keep found = elim (Bool-cases (p x)) [
    | inl hit ↦ elim (Bool-cases (q x)) [
      | inl changed ↦ ground (arith, hit, changed, keep x (Memᴰ.head refl) changed)
      | inr same ↦ ground (arith, hit, same)
    ]
    | inr miss ↦
        let rest : find? p (modify q f xs) ≡ some (if q a then f a else a) =
          find?-modify q f xs (λ y there. keep y (Memᴰ.tail there)) (rw miss at found) in
        elim (Bool-cases (q x)) [
          | inl changed ↦ ground (arith, miss, changed, keep x (Memᴰ.head refl) changed)
          | inr same ↦ ground (arith, miss, same)
        ]
  ]
