-- ===== src/Prelude/Keyed.antt =====
-- Objects used as maps: association lists by number. Writing a present key keeps its place, a new
-- key goes to the end.
use Prim.Native.Nat.{ℕ}
use mathlib.Core.Path.{◌≡◌, refl, ◌∙◌}
use mathlib.Core.Bool.{Bool, false, not}
use mathlib.Core.Logic.{inl, inr}
use mathlib.Core.Option.{Option, none, some}
use mathlib.Core.List.{List, [], ◌∷◌}
use native.Mathlib.Omega.{arith}
use hernan_pedraza_pi_back.Prelude.Tests.{if◌then◌else◌, Bool-cases, ◌==◌, ==_refl}
use hernan_pedraza_pi_back.Prelude.Lists.{filter}

module _ {ℓ} {V : Type ℓ} where
  abbrev pub lookup : ℕ → List (ℕ × V) → Option V
  lookup k [] = none
  lookup k ((j, v) ∷ xs) = if j == k then some v else lookup k xs

  abbrev pub put : ℕ → V → List (ℕ × V) → List (ℕ × V)
  put k v [] = (k, v) ∷ []
  put k v ((j, w) ∷ xs) = if j == k then (j, v) ∷ xs else (j, w) ∷ put k v xs

  abbrev pub remove : ℕ → List (ℕ × V) → List (ℕ × V)
  remove k xs = filter (λ x. not (x.0 == k)) xs

  -- No key occurs twice.
  abbrev pub KeysUnique : List (ℕ × V) → Type ℓ
  KeysUnique [] = Unit
  KeysUnique ((k, v) ∷ xs) = (lookup k xs ≡ none) × KeysUnique xs

  abbrev pub passing : (V → Bool) → Option V → Option V
  passing q none = none
  passing q (some v) = if q v then some v else none

  pub lookup-put : (k : ℕ) (v : V) (xs : List (ℕ × V)) → lookup k (put k v xs) ≡ some v
  lookup-put k v [] = rw (==_refl k)
  lookup-put k v ((j, w) ∷ xs) = elim (Bool-cases (j == k)) [
    | inl same ↦ rw (same, same)
    | inr other ↦ rw (other, other) (lookup-put k v xs)
  ]

  pub lookup-put_other :
      (k j : ℕ) (v : V) (xs : List (ℕ × V)) → k == j ≡ false → lookup j (put k v xs) ≡ lookup j xs
  lookup-put_other k j v [] apart = rw apart
  lookup-put_other k j v ((i, w) ∷ xs) apart =
      let rest = lookup-put_other k j v xs apart in
      elim (Bool-cases (i == k)) [
        | inl same ↦ let off : i == j ≡ false = (ground (arith, same, apart)) in rw (same, off)
        | inr other ↦ rw (other, rest)
      ]

  pub lookup-filter :
      (q : V → Bool) (k : ℕ) (xs : List (ℕ × V))
      → KeysUnique xs
      → lookup k (filter (λ x. q x.1) xs) ≡ passing q (lookup k xs)
  lookup-filter q k [] unique = refl
  lookup-filter q k ((j, v) ∷ xs) (fresh, unique) =
      let rest = lookup-filter q k xs unique in
      elim (Bool-cases (j == k)) [
        | inl same ↦
            let gone : lookup k xs ≡ none = (ground (arith, same, fresh)) in
            elim (Bool-cases (q v)) [
              | inl kept ↦ rw (same, kept, same)
              | inr cut ↦ rw (same, cut, rest, gone)
            ]
        | inr other ↦ elim (Bool-cases (q v)) [
          | inl kept ↦ rw (other, kept, other) rest
          | inr cut ↦ rw (other, cut) rest
        ]
      ]

  pub filter_keeps_missing :
      (q : ℕ × V → Bool) (k : ℕ) (xs : List (ℕ × V))
      → lookup k xs ≡ none
      → lookup k (filter q xs) ≡ none
  filter_keeps_missing q k [] missing = refl
  filter_keeps_missing q k ((j, v) ∷ xs) missing = elim (Bool-cases (j == k)) [
    | inl same ↦ cc (rw same at missing)
    | inr other ↦
        let rest = filter_keeps_missing q k xs (rw other at missing) in
        elim (Bool-cases (q (j, v))) [ inl kept ↦ rw (kept, other) rest | inr cut ↦ rw cut rest ]
  ]

  pub filter-KeysUnique :
      (q : ℕ × V → Bool) (xs : List (ℕ × V)) → KeysUnique xs → KeysUnique (filter q xs)
  filter-KeysUnique q [] unique = tt
  filter-KeysUnique q ((j, v) ∷ xs) (fresh, unique) = elim (Bool-cases (q (j, v))) [
    | inl kept ↦ rw kept (filter_keeps_missing q j xs fresh, filter-KeysUnique q xs unique)
    | inr gone ↦ rw gone (filter-KeysUnique q xs unique)
  ]

  pub put-KeysUnique : (k : ℕ) (v : V) (xs : List (ℕ × V)) → KeysUnique xs → KeysUnique (put k v xs)
  put-KeysUnique k v [] unique = (refl, tt)
  put-KeysUnique k v ((j, w) ∷ xs) (fresh, unique) = elim (Bool-cases (j == k)) [
    | inl same ↦ rw same (fresh, unique)
    | inr other ↦
        rw other
          (lookup-put_other k j v xs (ground (arith, other)) ∙ fresh, put-KeysUnique k v xs unique)
  ]
