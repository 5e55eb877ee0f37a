-- ===== src/Yaml/Outcomes.antt =====
-- apps/web/src/lib/yaml-lite.ts: runs that end, and what holds of their values.
use relaydot.Prelude.{Bool, true, false, ◌≡◌, ◌≢◌, if◌then◌else◌}
use relaydot.Yaml.{Outcome, done, thrown, unfinished, YamlError, ◌>>=◌}

-- A run that ends, with `P` of its value if it has one.
pub data Ensures {ℓ κ} {A : Type ℓ} (P : A → Type κ) : Outcome A → Type (ℓ ⊔ κ) where
  holds : {a : A} → P a → Ensures P (done a)
  threw : {e : YamlError} → Ensures P (thrown e)

module _ {ℓ κ} {A : Type ℓ} {P : A → Type κ} where
  pub Ensures-done : {r : Outcome A} {a : A} → Ensures P r → r ≡ done a → P a
  Ensures-done (holds h) e = subst_done (cc) h
    where
      subst_done : {a b : A} → a ≡ b → P a → P b
      subst_done p h = rw (← p) h
  Ensures-done threw e = cc

  pub Ensures-ends : {r : Outcome A} → Ensures P r → r ≢ unfinished
  Ensures-ends (holds h) = cc
  Ensures-ends threw = cc

  pub if-Ensures :
      (b : Bool) (x y : Outcome A) → Ensures P x → Ensures P y → Ensures P (if b then x else y)
  if-Ensures true x y hx hy = hx
  if-Ensures false x y hx hy = hy

  pub Ensures-map {κ'} :
      {Q : A → Type κ'} {r : Outcome A} → Ensures P r → ((a : A) → P a → Q a) → Ensures Q r
  Ensures-map (holds {a} h) k = holds (k a h)
  Ensures-map threw k = threw

  pub Ensures-bind {ℓ' κ'} :
      {B : Type ℓ'} {Q : B → Type κ'} {r : Outcome A} {f : A → Outcome B}
      → Ensures P r
      → ((a : A) → P a → Ensures Q (f a))
      → Ensures Q (r >>= f)
  Ensures-bind (holds {a} h) k = k a h
  Ensures-bind threw k = threw

abbrev pub Ends {ℓ} : {A : Type ℓ} → Outcome A → Type ℓ
Ends r = Ensures (λ _. Unit {0}) r
