-- ===== src/Prelude/Effects.antt =====
-- Methods that change a database and may throw. What was written before a throw stays written, so
-- the state comes back beside the error too; `transaction` is what rolls it back.
use Prim.Native.String.{String}
use mathlib.Core.Path.{◌≡◌, refl}
use mathlib.Core.Logic.{◌⊎◌, inl, inr}

pub data Error : Type 0 where
  authentication not_found validation webdav config failure : String → Error
  constraint : Error

pub data Result {ℓ} (A : Type ℓ) : Type ℓ where
  ok : A → Result A
  err : Error → Result A

pub Result-cases {ℓ} :
    {A : Type ℓ} (r : Result A) → ((a : A) × (r ≡ ok a)) ⊎ ((e : Error) × (r ≡ err e))
Result-cases (ok a) = inl (a, refl)
Result-cases (err e) = inr (e, refl)

abbrev pub Exec {ℓ} : Type ℓ → Type ℓ → Type ℓ
Exec S A = S → Result A × S

module _ {ℓ} {S A : Type ℓ} where
  abbrev pub pure : A → Exec S A
  pure a s = (ok a, s)

  abbrev pub throw : Error → Exec S A
  throw e s = (err e, s)

  abbrev pub lift : Result A → Exec S A
  lift r s = (r, s)

  abbrev pub gets : (S → A) → Exec S A
  gets f s = (ok (f s), s)

  abbrev settle : S → S → Result A → Result A × S
  settle before written (ok a) = (ok a, written)
  settle before written (err e) = (err e, before)

  -- A transaction of better-sqlite3: what throws out of it undoes its writes.
  abbrev pub transaction : Exec S A → Exec S A
  transaction m s = let (r, s') = m s in settle s s' r

module _ {ℓ} {S : Type ℓ} where
  abbrev pub modify : (S → S) → Exec S (Unit {ℓ})
  modify f s = (ok tt, f s)

module _ {ℓ} {S A B : Type ℓ} where
  abbrev on_result : (A → Result B × S) → (Error → Result B × S) → Result A → Result B × S
  on_result f g (ok a) = f a
  on_result f g (err e) = g e

  infixl 10 ◌>>=◌ ◌>>◌
  abbrev pub ◌>>=◌ : Exec S A → (A → Exec S B) → Exec S B
  ◌>>=◌ m f s = let (r, s') = m s in on_result (λ a. f a s') (λ e. (err e, s')) r

  abbrev pub ◌>>◌ : Exec S A → Exec S B → Exec S B
  m >> n = m >>= λ _. n

-- The state that a call leaves, and what it returns.
abbrev pub after {ℓ} : {S A : Type ℓ} → Exec S A → S → S
after m s = (m s).1

abbrev pub result {ℓ} : {S A : Type ℓ} → Exec S A → S → Result A
result m s = (m s).0
