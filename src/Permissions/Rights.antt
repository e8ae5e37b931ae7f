-- ===== src/Permissions/Rights.antt =====
-- What the checks of the permission service establish, stated without its context object.
use hernan_pedraza_pi_back.Prelude.{
  ℕ, String, ◌≡◌, ◌↔◌, ◌⊎◌, inl, inr, refl, true, ◌||◌, some, List, arith, ◌==◌, ==_iff, str_eq,
  any, Bool-cases, Option-cases, Memᴰ, any-mem, mem-any, eq_iff,
}
use hernan_pedraza_pi_back.Errors.{ok, Returns, Result-cases}
use hernan_pedraza_pi_back.Mongo.{Mongo}
use hernan_pedraza_pi_back.Platform.{Platform}
use hernan_pedraza_pi_back.Models.{Event, Role, dj, attendee, Member, Actor, Db}
use hernan_pedraza_pi_back.Permissions.{
  actor_id, actor_role, normalize_role, assert_actor_role, EventRef, is_dj_role, is_event_dj,
  has_any_permission, find_member, get_event, member_context, role_context, user_context,
  event_context, get_context, assert_event_dj, assert_any_permission, assert_owner,
}

module _ (m : Mongo) (env : Platform) (db : Db m) where
  -- The user runs the event: its owner, or a member with the role DJ.
  abbrev pub RunsEvent : Event → ℕ → Type 0
  RunsEvent e u =
      (e.owner_id ≡ u) ⊎ ((x : Member) × (find_member m env db e.id u ≡ some x) × (x.role ≡ dj))

  -- Or the user is a member who holds one of the permissions.
  abbrev pub HoldsOne : List String → Event → ℕ → Type 0
  HoldsOne permissions e u =
      (x : Member) × (find_member m env db e.id u ≡ some x)
      × ((p : String) × Memᴰ p permissions × Memᴰ p x.permissions)

  abbrev pub MayAct : List String → Event → ℕ → Type 0
  MayAct permissions e u = RunsEvent e u ⊎ HoldsOne permissions e u

  -- A request whose actor has a valid role and an identifier, on an event that exists.
  abbrev pub Identified : EventRef → Actor → Event → ℕ → Type 0
  Identified ref actor e u =
      ((r : Role) × (normalize_role (actor_role actor) ≡ some r))
      × (get_event m env db ref ≡ ok e)
      × (actor_id actor ≡ some u)

  dj_of_role : (r : Role) → is_dj_role r ≡ true → r ≡ dj
  dj_of_role dj h = refl
  dj_of_role attendee h = cc

  runs_context :
      (e : Event) (u : ℕ) (r : Role)
      → is_event_dj (member_context m env db e u r) ≡ true
      → RunsEvent e u
  unfolding is_event_dj member_context
  runs_context e u r h = elim (Bool-cases (e.owner_id == u)) [
    | inl own ↦ inl ((==_iff e.owner_id u).0 own)
    | inr other ↦ elim (Option-cases (find_member m env db e.id u)) [
      | inl missing ↦ cc (rw (other, missing) at h)
      | inr (x, found) ↦ inr (x, found, dj_of_role x.role (ground (arith, other, found)))
    ]
  ]

  context_runs :
      (e : Event) (u : ℕ) (r : Role)
      → RunsEvent e u
      → is_event_dj (member_context m env db e u r) ≡ true
  unfolding is_event_dj member_context
  context_runs e u r (inl own) = ground (arith, own)
  context_runs e u r (inr (x, found, e')) = ground (arith, found, e')

  permitted_context :
      (e : Event) (u : ℕ) (r : Role) (permissions : List String)
      → (is_event_dj (member_context m env db e u r)
          || has_any_permission (member_context m env db e u r) permissions)
        ≡ true
      → MayAct permissions e u
  unfolding is_event_dj has_any_permission member_context
  permitted_context e u r permissions h = elim (Bool-cases (e.owner_id == u)) [
    | inl own ↦ inl (inl ((==_iff e.owner_id u).0 own))
    | inr other ↦ elim (Option-cases (find_member m env db e.id u)) [
      | inl missing ↦ cc (rw (other, missing) at h)
      | inr (x, found) ↦ elim (Bool-cases (is_dj_role x.role)) [
        | inl d ↦ inl (inr (x, found, dj_of_role x.role d))
        | inr n ↦
            let (p, listed, held) =
              any-mem (λ p. any (str_eq p) x.permissions) permissions
                (ground (arith, other, found, n)) in
            let (q, here, same) = any-mem (str_eq p) x.permissions held in
            inr (x, found, (p, listed, rw ((eq_iff p q).0 same) here))
      ]
    ]
  ]

  holds_context :
      (e : Event) (u : ℕ) (r : Role) (permissions : List String)
      → HoldsOne permissions e u
      → (is_event_dj (member_context m env db e u r)
          || has_any_permission (member_context m env db e u r) permissions)
        ≡ true
  unfolding is_event_dj has_any_permission member_context
  holds_context e u r permissions (x, found, (p, listed, held)) = ground (
    arith,
    found,
    mem-any (λ q. any (str_eq q) x.permissions) permissions p listed
        (mem-any (str_eq p) x.permissions p held ((eq_iff p p).1 refl)),
  )

  context_permitted :
      (e : Event) (u : ℕ) (r : Role) (permissions : List String)
      → MayAct permissions e u
      → (is_event_dj (member_context m env db e u r)
          || has_any_permission (member_context m env db e u r) permissions)
        ≡ true
  context_permitted e u r permissions (inl runs) = rw (context_runs e u r runs)
  context_permitted e u r permissions (inr holds) = holds_context e u r permissions holds

  event_context_known :
      (actor : Actor) (r : Role) (e : Event) (u : ℕ)
      → normalize_role (actor_role actor) ≡ some r
      → actor_id actor ≡ some u
      → event_context m env db e actor ≡ member_context m env db e u r
  unfolding event_context
  event_context_known actor r e u role who = rw (who, role, user_context, role_context)

  -- The check, when the actor, its role and the event are known.
  permitted_of_Returns :
      (ref : EventRef) (actor : Actor) (permissions : List String) (message : String) (r : Role)
      (e : Event) (u : ℕ)
      → normalize_role (actor_role actor) ≡ some r
      → get_event m env db ref ≡ ok e
      → actor_id actor ≡ some u
      → Returns (assert_any_permission m env db ref actor permissions message)
      → MayAct permissions e u
  unfolding assert_any_permission get_context assert_actor_role
  permitted_of_Returns ref actor permissions message r e u role found who h =
      elim (Bool-cases (
        is_event_dj (member_context m env db e u r)
        || has_any_permission (member_context m env db e u r) permissions)) [
          | inl yes' ↦ permitted_context e u r permissions yes'
          | inr no' ↦
              absurd (rw (role, found, event_context_known actor r e u role who, no', Returns) at h)
        ]

  Returns-of_permitted :
      (ref : EventRef) (actor : Actor) (permissions : List String) (message : String) (r : Role)
      (e : Event) (u : ℕ)
      → normalize_role (actor_role actor) ≡ some r
      → get_event m env db ref ≡ ok e
      → actor_id actor ≡ some u
      → MayAct permissions e u
      → Returns (assert_any_permission m env db ref actor permissions message)
  unfolding assert_any_permission get_context assert_actor_role
  Returns-of_permitted ref actor permissions message r e u role found who may =
      rw
        (
          role,
          found,
          event_context_known actor r e u role who,
          context_permitted e u r permissions may,
          Returns,
        )
        tt

  Identified-of_Returns :
      (ref : EventRef) (actor : Actor) (permissions : List String) (message : String)
      → Returns (assert_any_permission m env db ref actor permissions message)
      → (e : Event) × (u : ℕ) × Identified ref actor e u
  unfolding assert_any_permission event_context assert_actor_role is_event_dj has_any_permission
  Identified-of_Returns ref actor permissions message h =
      elim (Option-cases (normalize_role (actor_role actor))) [
        | inl bad ↦ absurd (rw (bad, Returns) at h)
        | inr (r, role) ↦ elim (Result-cases (get_event m env db ref)) [
          | inr (x, missing) ↦ absurd (rw (role, missing, Returns) at h)
          | inl (e, found) ↦ elim (Option-cases (actor_id actor)) [
            | inl nobody ↦ absurd (rw (role, found, nobody, Returns) at h)
            | inr (u, who) ↦ (e, u, ((r, role), found, who))
          ]
        ]
      ]

-- A check for one of several permissions succeeds exactly when the actor has a valid role and an
-- identifier, the event exists, and that user owns it, is a DJ of it, or is a member holding one
-- of the permissions.
pub assert_any_permission_iff :
    (m : Mongo) (env : Platform) (db : Db m) (ref : EventRef) (actor : Actor)
    (permissions : List String) (message : String)
    → Returns (assert_any_permission m env db ref actor permissions message) ↔ (
        (e : Event) × (u : ℕ) × (Identified m env db ref actor e u)
        × (MayAct m env db permissions e u))
assert_any_permission_iff m env db ref actor permissions message = (
  λ h.
      let (e, u, known) = Identified-of_Returns m env db ref actor permissions message h in
      (
        e,
        u,
        known,
        permitted_of_Returns m env db ref actor permissions message known.0.0 e u known.0.1 known.1
            known.2 h,
      ),
  λ (e, u, known, may).
      Returns-of_permitted m env db ref actor permissions message known.0.0 e u known.0.1 known.1
        known.2 may,
)

-- `assertOwner` accepts every DJ of the event: it succeeds exactly where `assertEventDj` does.
pub assert_owner_iff :
    (m : Mongo) (env : Platform) (db : Db m) (ref : EventRef) (actor : Actor)
    (message other : String)
    → Returns (assert_owner m env db ref actor message)
      ↔ Returns (assert_event_dj m env db ref actor other)
unfolding assert_owner assert_event_dj
assert_owner_iff m env db ref actor message other = elim (Result-cases (assert_actor_role actor)) [
  | inr (x, bad) ↦ rw (bad, Returns) (λ h. h, λ h. h)
  | inl (r, role) ↦ elim (Result-cases (get_context m env db ref actor)) [
    | inr (x, missing) ↦ rw (role, missing, Returns) (λ h. h, λ h. h)
    | inl (c, found) ↦ elim (Bool-cases (is_event_dj c)) [
      | inl runs ↦ rw (role, found, runs, Returns) (λ h. h, λ h. h)
      | inr not ↦ rw (role, found, not, Returns) (λ h. h, λ h. h)
    ]
  ]
]
