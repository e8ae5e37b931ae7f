-- ===== src/Exec.antt =====
-- Methods that read and write a store and may throw. What was written before a throw stays
-- written, so the store comes back beside the error too.
use hernan_pedraza_pi_back.Prelude.{◌≡◌, refl, Bool, true, false}
use hernan_pedraza_pi_back.Errors.{ApiError, Result, ok, err, guard, refuse, Returns}

abbrev pub Exec {ℓ} : Type ℓ → Type ℓ → Type ℓ
Exec S A = S → Result A × S

module _ {ℓ} {S A : Type ℓ} where
  abbrev pub pure : A → Exec S A
  pure a s = (ok a, s)

  abbrev pub raise : ApiError → Exec S A
  raise e s = (err e, s)

  abbrev pub gets : (S → A) → Exec S A
  gets f s = (ok (f s), s)

  abbrev pub lift : Result A → Exec S A
  lift r s = (r, s)

module _ {S : Type 0} where
  abbrev pub update : (S → S) → Exec S (Unit {0})
  update f s = (ok tt, f s)

module _ {ℓ} {S A B : Type ℓ} where
  abbrev pub continue : Result A → S → (A → Exec S B) → Result B × S
  continue (ok a) s f = f a s
  continue (err e) s f = (err e, s)

  infixl 5 ◌>>=◌ ◌>>◌
  abbrev pub ◌>>=◌ : Exec S A → (A → Exec S B) → Exec S B
  ◌>>=◌ m f s = continue (m s).0 (m s).1 f

  abbrev pub ◌>>◌ : Exec S A → Exec S B → Exec S B
  m >> k = m >>= λ _. k

-- A checked step, and what follows it.
module _ {S B : Type 0} where
  pub Returns-lift :
      (r : Result (Unit {0})) (k : Exec S B) (s : S)
      → Returns ((lift r >> k) s).0
      → Returns r × Returns (k s).0
  Returns-lift (ok a) k s h = (tt, h)
  Returns-lift (err e) k s h = absurd h

-- A checked step changes no part of the store, so what follows it decides.
module _ {S B X : Type 0} (f : S → X) where
  pub lift-keeps :
      (r : Result (Unit {0})) (k : Exec S B) (s : S) → f (k s).1 ≡ f s → f ((lift r >> k) s).1 ≡ f s
  lift-keeps (ok a) k s h = h
  lift-keeps (err e) k s h = refl

-- A chain that returned: what its first step returned, and that the rest returned.
module _ {S A B C : Type 0} where
  pub ok-lift :
      (r : Result A) (f : A → Exec S B) (s : S) (b : B)
      → ((lift r >>= f) s).0 ≡ ok b
      → ((a : A) → r ≡ ok a → (f a s).0 ≡ ok b → C)
      → C
  ok-lift (ok a) f s b h k = k a refl h
  ok-lift (err e) f s b h k = cc

-- The same when the first step writes too.
module _ {S A B C : Type 0} where
  ok_continue :
      (r : Result A) (f : A → Exec S B) (s : S) (b : B)
      → (continue r s f).0 ≡ ok b
      → ((a : A) → r ≡ ok a → (f a s).0 ≡ ok b → C)
      → C
  ok_continue (ok a) f s b h k = k a refl h
  ok_continue (err e) f s b h k = cc

  pub ok_bind :
      (x : Exec S A) (f : A → Exec S B) (s : S) (b : B)
      → ((x >>= f) s).0 ≡ ok b
      → ((a : A) → (x s).0 ≡ ok a → (f a (x s).1).0 ≡ ok b → C)
      → C
  ok_bind x f s b h k = ok_continue (x s).0 f (x s).1 b h k

-- A checked step before steps that change no part of the store.
module _ {S A B X : Type 0} (f : S → X) where
  pub bind_keeps :
      (r : Result A) (k : A → Exec S B) (s : S)
      → ((a : A) → f (k a s).1 ≡ f s)
      → f ((lift r >>= k) s).1 ≡ f s
  bind_keeps (ok a) k s h = h a
  bind_keeps (err e) k s h = refl

pub ok-guard : (b : Bool) (e : ApiError) (u : Unit {0}) → guard b e ≡ ok u → b ≡ true
ok-guard true e u h = refl
ok-guard false e u h = cc

pub ok-refuse : (b : Bool) (e : ApiError) (u : Unit {0}) → refuse b e ≡ ok u → b ≡ false
ok-refuse true e u h = cc
ok-refuse false e u h = refl
