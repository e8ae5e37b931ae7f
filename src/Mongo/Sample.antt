-- ===== src/Mongo/Sample.antt =====
-- A database whose collections are lists: it meets every law, and serves the concrete runs.
use hernan_pedraza_pi_back.Prelude.{
  any, sort_by, count-sort_by, ◌≡◌, refl, Bool, true, Option, none, some, List, [], ◌∷◌, ◌++◌,
  filter, find?, count, modify, Bool-cases, if◌then◌else◌, inl, inr,
}
use hernan_pedraza_pi_back.Mongo.Laws.{Mongo, modify_first, not_test}

module _ {A : Type 0} where
  -- The least of the elements that pass, the earliest among equals.
  abbrev pub least : (A → A → Bool) → Option A → List A → Option A
  least before best [] = best
  least before none (x ∷ xs) = least before (some x) xs
  least before (some b) (x ∷ xs) = least before (some (if before x b then x else b)) xs

  abbrev pub Passes : (A → Bool) → Option A → Type 0
  Passes p none = Unit
  Passes p (some a) = p a ≡ true

  Passes-least :
      (before : A → A → Bool) (p : A → Bool) (best : Option A) (xs : List A)
      → Passes p best
      → Passes p (least before best (filter p xs))
  Passes-least before p best [] h = h
  Passes-least before p none (x ∷ xs) h = elim (Bool-cases (p x)) [
    | inl e ↦ rw e (Passes-least before p (some x) xs e)
    | inr e ↦ rw e (Passes-least before p none xs tt)
  ]
  Passes-least before p (some b) (x ∷ xs) h = elim (Bool-cases (p x)) [
    | inl e ↦ rw e (
        Passes-least before p (some (if before x b then x else b)) xs
          (elim (Bool-cases (before x b)) [ inl q ↦ rw q e | inr q ↦ rw q h ]))
    | inr e ↦ rw e (Passes-least before p (some b) xs h)
  ]

  pub least-filter :
      (before : A → A → Bool) (p : A → Bool) (xs : List A) (d : A)
      → least before none (filter p xs) ≡ some d
      → p d ≡ true
  least-filter before p xs d e = rw e at (Passes-least before p none xs tt)

abbrev pub list_mongo : Mongo
list_mongo = record {
  Coll = λ D. List D;
  docs = λ D c. c;
  find = λ D p c. filter p c;
  find_one = λ D p c. find? p c;
  count_documents = λ D p c. count p c;
  find_first = λ D before p c. least before none (filter p c);
  find_sorted = λ D before q c. sort_by before (filter q c);
  update_many = λ D p f c. modify p f c;
  update_one = λ D p f c. modify_first p f c;
  save = λ D p d c. modify p (λ _. d) c;
  create = λ D d c. c ++ d ∷ [];
  upsert = λ D p d c. if any p c then c else c ++ d ∷ [];
  delete_many = λ D p c. filter (not_test p) c;
  find_law = λ D p c. refl;
  find_one_law = λ D p c. refl;
  count_law = λ D p c. refl;
  find_first_law = λ D before p c d e. least-filter before p c d e;
  find_sorted_law = λ D before q c p. count-sort_by before p (filter q c);
  update_many_law = λ D p f c. refl;
  update_one_law = λ D p f c. refl;
  save_law = λ D p d c. refl;
  create_law = λ D d c. refl;
  upsert_law = λ D p d c. refl;
  delete_many_law = λ D p c. refl;
}
