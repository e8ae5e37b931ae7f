-- ===== src/Mongo/Laws.antt =====
-- The interface itself: the operations of a collection and their laws.
use hernan_pedraza_pi_back.Prelude.{
  ℕ, ◌≡◌, Bool, true, not, Option, some, List, [], ◌∷◌, ◌++◌, filter, find?, count, any, modify,
  if◌then◌else◌,
}

module _ {ℓ} {A : Type ℓ} where
  -- A change of the first element that passes a test.
  abbrev pub modify_first : (A → Bool) → (A → A) → List A → List A
  modify_first p f [] = []
  modify_first p f (x ∷ xs) = if p x then f x ∷ xs else x ∷ modify_first p f xs

  abbrev pub not_test : (A → Bool) → A → Bool
  not_test p x = not (p x)

pub record Mongo : Type 1 where
  pub Coll : Type 0 → Type 0
  pub docs : (D : Type 0) → Coll D → List D
  -- Model.find(filter), Model.findOne(filter), Model.countDocuments(filter)
  pub find : (D : Type 0) → (D → Bool) → Coll D → List D
  pub find_one : (D : Type 0) → (D → Bool) → Coll D → Option D
  pub count_documents : (D : Type 0) → (D → Bool) → Coll D → ℕ
  -- Model.findOne(filter) with a sort order, given as "comes strictly before"
  pub find_first : (D : Type 0) → (D → D → Bool) → (D → Bool) → Coll D → Option D
  -- Model.find(filter).sort(order); the order of documents that no key tells apart is left open
  pub find_sorted : (D : Type 0) → (D → D → Bool) → (D → Bool) → Coll D → List D
  -- Model.updateMany and Model.updateOne (and findByIdAndUpdate)
  pub update_many : (D : Type 0) → (D → Bool) → (D → D) → Coll D → Coll D
  pub update_one : (D : Type 0) → (D → Bool) → (D → D) → Coll D → Coll D
  -- document.save() of a document that was read, found again by its identifier
  pub save : (D : Type 0) → (D → Bool) → D → Coll D → Coll D
  -- Model.create(document), and save() of a new document
  pub create : (D : Type 0) → D → Coll D → Coll D
  -- Model.updateOne(filter, { $setOnInsert: document }, { upsert: true })
  pub upsert : (D : Type 0) → (D → Bool) → D → Coll D → Coll D
  -- Model.deleteMany(filter)
  pub delete_many : (D : Type 0) → (D → Bool) → Coll D → Coll D
  pub find_law : (D : Type 0) (p : D → Bool) (c : Coll D) → find D p c ≡ filter p (docs D c)
  pub find_one_law : (D : Type 0) (p : D → Bool) (c : Coll D) → find_one D p c ≡ find? p (docs D c)
  pub count_law :
      (D : Type 0) (p : D → Bool) (c : Coll D) → count_documents D p c ≡ count p (docs D c)
  pub find_first_law :
      (D : Type 0) (before : D → D → Bool) (p : D → Bool) (c : Coll D) (d : D)
      → find_first D before p c ≡ some d
      → p d ≡ true
  pub find_sorted_law :
      (D : Type 0) (before : D → D → Bool) (q : D → Bool) (c : Coll D) (p : D → Bool)
      → count p (find_sorted D before q c) ≡ count p (filter q (docs D c))
  pub update_many_law :
      (D : Type 0) (p : D → Bool) (f : D → D) (c : Coll D)
      → docs D (update_many D p f c) ≡ modify p f (docs D c)
  pub update_one_law :
      (D : Type 0) (p : D → Bool) (f : D → D) (c : Coll D)
      → docs D (update_one D p f c) ≡ modify_first p f (docs D c)
  pub save_law :
      (D : Type 0) (p : D → Bool) (d : D) (c : Coll D)
      → docs D (save D p d c) ≡ modify p (λ _. d) (docs D c)
  pub create_law : (D : Type 0) (d : D) (c : Coll D) → docs D (create D d c) ≡ docs D c ++ d ∷ []
  pub upsert_law :
      (D : Type 0) (p : D → Bool) (d : D) (c : Coll D)
      → docs D (upsert D p d c) ≡ (if any p (docs D c) then docs D c else docs D c ++ d ∷ [])
  pub delete_many_law :
      (D : Type 0) (p : D → Bool) (c : Coll D)
      → docs D (delete_many D p c) ≡ filter (not_test p) (docs D c)

-- The laws as equations for `simp`, with the interface explicit.
module _ (m : Mongo) {D : Type 0} where
  pub find_lem : (p : D → Bool) (c : m.Coll D) → m.find D p c ≡ filter p (m.docs D c)
  find_lem = m.find_law D

  pub find_one_lem : (p : D → Bool) (c : m.Coll D) → m.find_one D p c ≡ find? p (m.docs D c)
  find_one_lem = m.find_one_law D

  pub count_documents_lem :
      (p : D → Bool) (c : m.Coll D) → m.count_documents D p c ≡ count p (m.docs D c)
  count_documents_lem = m.count_law D

  pub docs-update_many :
      (p : D → Bool) (f : D → D) (c : m.Coll D)
      → m.docs D (m.update_many D p f c) ≡ modify p f (m.docs D c)
  docs-update_many = m.update_many_law D

  pub docs-update_one :
      (p : D → Bool) (f : D → D) (c : m.Coll D)
      → m.docs D (m.update_one D p f c) ≡ modify_first p f (m.docs D c)
  docs-update_one = m.update_one_law D

  pub docs-save :
      (p : D → Bool) (d : D) (c : m.Coll D)
      → m.docs D (m.save D p d c) ≡ modify p (λ _. d) (m.docs D c)
  docs-save = m.save_law D

  pub docs-create : (d : D) (c : m.Coll D) → m.docs D (m.create D d c) ≡ m.docs D c ++ d ∷ []
  docs-create = m.create_law D

  pub docs-delete_many :
      (p : D → Bool) (c : m.Coll D)
      → m.docs D (m.delete_many D p c) ≡ filter (not_test p) (m.docs D c)
  docs-delete_many = m.delete_many_law D

  pub docs-upsert :
      (p : D → Bool) (d : D) (c : m.Coll D)
      → m.docs D (m.upsert D p d c)
        ≡ (if any p (m.docs D c) then m.docs D c else m.docs D c ++ d ∷ [])
  docs-upsert = m.upsert_law D

  pub count-find_sorted :
      (before : D → D → Bool) (q : D → Bool) (c : m.Coll D) (p : D → Bool)
      → count p (m.find_sorted D before q c) ≡ count p (filter q (m.docs D c))
  count-find_sorted = m.find_sorted_law D

pub ruleset mongo_laws = (
  find_lem, find_one_lem, count_documents_lem, docs-update_many, docs-update_one, docs-save,
  docs-create, docs-delete_many,
)
