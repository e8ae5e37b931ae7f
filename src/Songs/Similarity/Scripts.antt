-- ===== src/Songs/Similarity/Scripts.antt =====
-- The distance of two texts as the cost of a cheapest script that turns one into the other.
use hernan_pedraza_pi_back.Prelude.{
  ℕ, suc, ◌+◌, ◌≤◌, min, Bool, true, false, leb, [], ◌∷◌, ◌==◌, ==_refl, length, if◌then◌else◌, ◌≡◌,
  refl, sym, Bool-cases, inl, inr, arith,
}
use mathlib.Core.Path.{subst}
use native.Mathlib.Nat.{min-eq_left, min-eq_right}
use hernan_pedraza_pi_back.Songs.Similarity.{Text, levenshtein}
use hernan_pedraza_pi_back.Songs.Similarity.Distance.{distance, onto, levenshtein-distance}

-- Scripts between two texts, with the number of characters that they touch.
pub data Script : Text → Text → ℕ → Type 0 where
  done : Script [] [] 0
  keep : (x : ℕ) {r s : Text} {n : ℕ} → Script r s n → Script (x ∷ r) (x ∷ s) n
  replace : (x y : ℕ) {r s : Text} {n : ℕ} → Script r s n → Script (x ∷ r) (y ∷ s) (n + 1)
  delete : (x : ℕ) {r s : Text} {n : ℕ} → Script r s n → Script (x ∷ r) s (n + 1)
  insert : (y : ℕ) {r s : Text} {n : ℕ} → Script r s n → Script r (y ∷ s) (n + 1)

-- What every outcome of a test has, its conditional has.
either :
    (P : ℕ → Type 0) (b : Bool) (m n : ℕ)
    → (b ≡ true → P m)
    → (b ≡ false → P n)
    → P (if b then m else n)
either P true m n p q = p refl
either P false m n p q = q refl

distance_of_nothing : (r : Text) → distance r [] ≡ length r
unfolding distance
distance_of_nothing [] = refl
distance_of_nothing (x ∷ r) = refl

-- One character more on either side changes the distance by one at most.
delete_bound_from :
    (r : Text)
    → ((s : Text) (y : ℕ) → distance r s ≤ distance r (y ∷ s) + 1)
    → (x : ℕ) (s : Text) → distance (x ∷ r) s ≤ distance r s + 1
unfolding distance
delete_bound_from r drop x [] = ground (arith, distance_of_nothing r)
delete_bound_from r drop x (y ∷ s) =
    either (λ n. n ≤ distance r (y ∷ s) + 1) (x == y) _ _ (λ _. drop s y) (λ _. ground arith)

drop_bound : (r s : Text) (y : ℕ) → distance r s ≤ distance r (y ∷ s) + 1
unfolding distance
drop_bound [] s y = ground arith
drop_bound (x ∷ r) s y =
    let more : distance (x ∷ r) s ≤ distance r s + 1 = delete_bound_from r (drop_bound r) x s in
    let less : distance r s ≤ distance r (y ∷ s) + 1 = drop_bound r s y in
    either (λ n. distance (x ∷ r) s ≤ n + 1) (x == y) _ _ (λ _. more)
      (λ _. ground (arith, more, less))

delete_bound : (x : ℕ) (r s : Text) → distance (x ∷ r) s ≤ distance r s + 1
delete_bound x r s = delete_bound_from r (drop_bound r) x s

insert_bound_from :
    (s : Text)
    → ((r : Text) (x : ℕ) → distance r s ≤ distance (x ∷ r) s + 1)
    → (y : ℕ) (r : Text) → distance r (y ∷ s) ≤ distance r s + 1
unfolding distance
insert_bound_from s drop y [] = ground arith
insert_bound_from s drop y (x ∷ r) =
    either (λ n. n ≤ distance (x ∷ r) s + 1) (x == y) _ _ (λ _. drop r x) (λ _. ground arith)

drop_first_bound : (s r : Text) (x : ℕ) → distance r s ≤ distance (x ∷ r) s + 1
unfolding distance
drop_first_bound [] r x = ground (arith, distance_of_nothing r)
drop_first_bound (y ∷ s) r x =
    let more : distance r (y ∷ s) ≤ distance r s + 1 =
      insert_bound_from s (drop_first_bound s) y r in
    let less : distance r s ≤ distance (x ∷ r) s + 1 = drop_first_bound s r x in
    either (λ n. distance r (y ∷ s) ≤ n + 1) (x == y) _ _ (λ _. more)
      (λ _. ground (arith, more, less))

insert_bound : (y : ℕ) (r s : Text) → distance r (y ∷ s) ≤ distance r s + 1
insert_bound y r s = insert_bound_from s (drop_first_bound s) y r

cheaper_bound : {r s : Text} {n : ℕ} → Script r s n → distance r s ≤ n
unfolding distance
cheaper_bound done = ground arith
cheaper_bound (keep x {r} {s} t) = rw (==_refl x) (cheaper_bound t)
cheaper_bound (replace x y {r} {s} {n} t) =
    let rest : distance r s ≤ n = cheaper_bound t in
    either (λ k. k ≤ n + 1) (x == y) _ _ (λ _. ground (arith, rest)) (λ _. ground (arith, rest))
cheaper_bound (delete x {r} {s} {n} t) = ground (arith, cheaper_bound t, delete_bound x r s)
cheaper_bound (insert y {r} {s} {n} t) = ground (arith, cheaper_bound t, insert_bound y r s)

either_min : (P : ℕ → Type 0) (m n : ℕ) → P m → P n → P (min m n)
either_min P m n p q = elim (Bool-cases (leb m n)) [
  | inl e ↦ subst P (sym (min-eq_left (ground (arith, e)))) p
  | inr e ↦ subst P (sym (min-eq_right (ground (arith, e)))) q
]

cheapest : (r s : Text) → Script r s (distance r s)
unfolding distance
cheapest [] [] = done
cheapest [] (y ∷ s) = subst (Script [] (y ∷ s)) (omega arith) (insert y (cheapest [] s))
cheapest (x ∷ r) [] =
    let n : distance r [] + 1 ≡ suc (length r) = ground (arith, distance_of_nothing r) in
    subst (Script (x ∷ r) []) n (delete x (cheapest r []))
cheapest (x ∷ r) (y ∷ s) =
    either (Script (x ∷ r) (y ∷ s)) (x == y) _ _
      (λ e.
        let same : x ≡ y = ground (arith, e) in
        subst (λ z. Script (x ∷ r) (z ∷ s) (distance r s)) same (keep x (cheapest r s)))
      (λ _.
        either_min (λ k. Script (x ∷ r) (y ∷ s) (k + 1)) (min (distance r s) (distance (x ∷ r) s))
          (distance r (y ∷ s))
          (either_min (λ k. Script (x ∷ r) (y ∷ s) (k + 1)) (distance r s) (distance (x ∷ r) s)
            (replace x y (cheapest r s)) (insert y (cheapest (x ∷ r) s)))
          (delete x (cheapest r (y ∷ s))))

-- A cost that some script has and that no script is below.
abbrev pub Least : Text → Text → ℕ → Type 0
Least r s n = Script r s n × ((k : ℕ) → Script r s k → n ≤ k)

-- The value of levenshtein is the cost of a cheapest script of insertions, deletions and
-- replacements of single characters between the two texts, both read from the end.
pub levenshtein-Least : (a b : Text) → Least (onto a []) (onto b []) (levenshtein a b)
levenshtein-Least a b =
    subst (Least (onto a []) (onto b [])) (sym (levenshtein-distance a b))
      (cheapest (onto a []) (onto b []), (λ k t. cheaper_bound t))
