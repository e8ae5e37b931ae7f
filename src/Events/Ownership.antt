-- ===== src/Events/Ownership.antt =====
-- The methods of src/services/events.service.js that change an event, called in any order by any
-- users.
use hernan_pedraza_pi_back.Prelude.{
  ℕ, ◌≤◌, ◌≡◌, ◌≢◌, refl, ap, ◌∙◌, String, Bool, true, false, Option, none, some, List, [], ◌∷◌,
  ◌==◌, Bool-cases, Option-cases, inl, inr, filter, count, find?, find?-mem, modify, count-modify,
  arith,
}
use hernan_pedraza_pi_back.Exec.{◌>>=◌}
use hernan_pedraza_pi_back.Mongo.{Mongo, docs-save, find_one_lem}
use hernan_pedraza_pi_back.Platform.{Platform}
use hernan_pedraza_pi_back.Models.{Settings, EventState, Event, Db}
use hernan_pedraza_pi_back.Participants.Joining.{truthy}
use hernan_pedraza_pi_back.Events.Lifecycle.{
  load_event, save_event, stored_event, owned_event, save_and_return, EventUpdates, renamed_to,
  described_as, set_to, apply_updates, update_event, start_event, end_event, cancel_event,
  regenerate_access_code,
}

modify_nothing :
    (q : Event → Bool) (f : Event → Event) (xs : List Event) → count q xs ≡ 0 → modify q f xs ≡ xs
modify_nothing q f [] e = refl
modify_nothing q f (x ∷ xs) e = elim (Bool-cases (q x)) [
  | inl hit ↦ ground (arith, e, hit)
  | inr miss ↦ let rest = modify_nothing q f xs (rw miss at e) in rw (miss, rest)
]

-- Replacing the only element that a test names by one that fails another test, as that element
-- does, keeps those that pass the other.
filter_replaced :
    (p q : Event → Bool) (d a : Event) (xs : List Event)
    → count q xs ≤ 1
    → find? q xs ≡ some a
    → p a ≡ false
    → p d ≡ false
    → filter p (modify q (λ _. d) xs) ≡ filter p xs
filter_replaced p q d a [] once found off off_d = cc found
filter_replaced p q d a (x ∷ xs) once found off off_d = elim (Bool-cases (q x)) [
  | inl hit ↦
      let first : some x ≡ some a = (rw hit at found) in
      let same : x ≡ a = ap (λ o. elim o [ none ↦ a | some y ↦ y ]) first in
      let none_left : count q xs ≡ 0 = (ground (arith, once, hit)) in
      let rest = modify_nothing q (λ _. d) xs none_left in
      let off_x : p x ≡ false = (rw same off) in rw (hit, rest, off_x, off_d)
  | inr miss ↦
      let rest = filter_replaced p q d a xs (rw miss at once) (rw miss at found) off off_d in
      elim (Bool-cases (p x)) [
        | inl in_p ↦ rw (miss, in_p, rest)
        | inr out_p ↦ rw (miss, out_p, rest)
      ]
]

-- A change of an event that leaves its identifier and its owner.
abbrev Keeps : (Event → Event) → Type 0
Keeps change = (x : Event) → ((change x).id ≡ x.id) × ((change x).owner_id ≡ x.owner_id)

renamed-Keeps : (name : Option String) → Keeps (renamed_to name)
renamed-Keeps none x = (refl, refl)
renamed-Keeps (some s) x = (refl, refl)

described-Keeps : (text : Option String) → Keeps (described_as text)
described-Keeps none x = (refl, refl)
described-Keeps (some s) x = (refl, refl)

set-Keeps : (settings : Option Settings) → Keeps (set_to settings)
set-Keeps none x = (refl, refl)
set-Keeps (some s) x = (refl, refl)

updates-Keeps : (updates : EventUpdates) → Keeps (apply_updates updates)
unfolding apply_updates
updates-Keeps updates x =
    let y = renamed_to (truthy updates.name) x in
    let z = described_as (truthy updates.description) y in
    let (i, o) = renamed-Keeps (truthy updates.name) x in
    let (j, q) = described-Keeps (truthy updates.description) y in
    let (k, r) = set-Keeps updates.settings z in (k ∙ j ∙ i, r ∙ q ∙ o)

module _ (m : Mongo) (env : Platform) where
  -- A call of one of the methods by a user, whether it returns or throws.
  pub data EventCall (u : ℕ) : Db m → Db m → Type 0 where
    updated :
        (e : ℕ) (updates : EventUpdates) (db : Db m)
        → EventCall u db (update_event m env e u updates db).1
    started : (e : ℕ) (db : Db m) → EventCall u db (start_event m env e u db).1
    ended : (now e : ℕ) (db : Db m) → EventCall u db (end_event m env now e u db).1
    cancelled :
        (now e : ℕ) (reason : Option String) (db : Db m)
        → EventCall u db (cancel_event m env now e u reason db).1
    recoded :
        (e : ℕ) (code : String) (db : Db m)
        → EventCall u db (regenerate_access_code m env e u code db).1

  -- Calls after each other, each by some user other than `v`.
  pub data CallsWithout (v : ℕ) (db : Db m) : Db m → Type 0 where
    nothing : CallsWithout v db db
    then_call :
        (u : ℕ) {before after : Db m}
        → CallsWithout v db before
        → u ≢ v
        → EventCall u before after
        → CallsWithout v db after

  abbrev pub events_of : ℕ → Db m → List Event
  events_of v db = filter (λ x. x.owner_id == v) (m.docs Event db.events)

  abbrev pub uses : ℕ → Db m → ℕ
  uses i db = count (λ x. x.id == i) (m.docs Event db.events)

  -- What a call leaves: the events of `v`, and how often each identifier is used.
  abbrev Kept : ℕ → Db m → Db m → Type 0
  Kept v db db' = (events_of v db' ≡ events_of v db) × ((i : ℕ) → uses i db' ≡ uses i db)

  change-Kept :
      (u v e : ℕ) (change : Event → Event) (db : Db m)
      → ((i : ℕ) → uses i db ≤ 1)
      → u ≢ v
      → Keeps change
      → Kept v db ((owned_event m env e u >>= λ x. save_and_return m env (change x)) db).1
  unfolding load_event save_event stored_event
  change-Kept u v e change db once other keeps = elim (Option-cases (load_event m env db e)) [
    | inl missing ↦ rw missing (refl, λ i. refl)
    | inr (x, loaded) ↦ elim (Bool-cases (x.owner_id == u)) [
      | inr stranger ↦ rw (loaded, stranger) (refl, λ i. refl)
      | inl mine ↦
          let y = change x in
          let d = stored_event m env y in
          let docs = m.docs Event db.events in
          let (same_id, same_owner) = keeps x in
          let found : find? (λ z. z.id == e) docs ≡ some x = (rw find_one_lem at loaded) in
          let named : x.id == e ≡ true = (find?-mem (λ z. z.id == e) docs x found).1 in
          let here : y.id ≡ e = same_id ∙ ground (arith, named) in
          let off : x.owner_id == v ≡ false = (ground (arith, mine, other)) in
          let off_d : y.owner_id == v ≡ false = (rw (same_owner, off)) in
          let at_y : find? (λ z. z.id == y.id) docs ≡ some x = (rw (here, found)) in
          rw (loaded, mine, docs-save)
            (
              filter_replaced (λ z. z.owner_id == v) (λ z. z.id == y.id) d x docs (once y.id) at_y
                  off off_d,
              λ i.
                  count-modify (λ z. z.id == i) (λ z. z.id == y.id) (λ _. d) docs
                    (λ z there hit. ground (arith, hit)),
            )
    ]
  ]

  call-Kept :
      (u v : ℕ) (db : Db m) {after : Db m}
      → ((i : ℕ) → uses i db ≤ 1)
      → u ≢ v
      → EventCall u db after
      → Kept v db after
  unfolding update_event start_event end_event cancel_event regenerate_access_code
  call-Kept u v _ once other (updated e updates db) =
      change-Kept u v e (apply_updates updates) db once other (updates-Keeps updates)
  call-Kept u v _ once other (started e db) =
      change-Kept u v e (λ x. record x { state = EventState.live }) db once other
        (λ x. (refl, refl))
  call-Kept u v _ once other (ended now e db) =
      change-Kept u v e (λ x. record x { state = EventState.ended; ended_at = some now }) db once
        other (λ x. (refl, refl))
  call-Kept u v _ once other (cancelled now e reason db) =
      change-Kept u v e
        (λ x. record x {
          state = EventState.cancelled;
          cancelled_at = some now;
          cancelled_reason = reason;
        })
        db once other (λ x. (refl, refl))
  call-Kept u v _ once other (recoded e code db) =
      change-Kept u v e (λ x. record x { access_code = code }) db once other (λ x. (refl, refl))

  calls-Kept :
      (v : ℕ) (db : Db m) {after : Db m}
      → ((i : ℕ) → uses i db ≤ 1)
      → CallsWithout v db after
      → Kept v db after
  calls-Kept v db once nothing = (refl, λ i. refl)
  calls-Kept v db once (then_call u {before} calls other call) =
      let (same, used) = calls-Kept v db once calls in
      let (next, reused) = call-Kept u v before (λ i. rw (used i) (once i)) other call in
      (next ∙ same, λ i. reused i ∙ used i)

-- Whatever other users call, in any order and with any arguments, of updateEvent, startEvent, endEvent,
-- cancelEvent and regenerateAccessCode, and whether a call returns or throws, the stored events of
-- a user stay the same documents in the same order, if every identifier occurs at most once among
-- the events.
pub CallsWithout-events_of :
    (m : Mongo) (env : Platform) (v : ℕ) (db after : Db m)
    → ((i : ℕ) → uses m env i db ≤ 1)
    → CallsWithout m env v db after
    → events_of m env v after ≡ events_of m env v db
CallsWithout-events_of m env v db after once calls = (calls-Kept m env v db once calls).0
