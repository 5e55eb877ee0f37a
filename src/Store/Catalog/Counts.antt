-- ===== src/Store/Catalog/Counts.antt =====
-- The number of models that an observation reports.
use relaydot.Prelude.{
  ℕ, ◌+◌, ◌≡◌, refl, ap, ◌∙◌, Bool, true, false, ◌&&◌, ◌||◌, List, [], ◌∷◌, ◌++◌, any, all, update,
  changes, upsert_changes, length, length-update, arith, eq_iff, str_eq_refl, ◌=ˢ◌, String,
  Bool-cases, inl, inr,
}
use relaydot.Store.Schema.{CatalogModel, ModelPrice, Db}
use relaydot.Store.Catalog.{
  is_model, prices_model, ObservedModel, seen_again, observe_one, observe_each,
  observe_catalog_models,
}

-- `model_id TEXT PRIMARY KEY`.
abbrev pub UniqueModels : List CatalogModel → Type 0
UniqueModels [] = Unit
UniqueModels (m ∷ ms) = (any (is_model m.model_id) ms ≡ false) × UniqueModels ms

changes-none :
    (id : String) (ms : List CatalogModel)
    → any (is_model id) ms ≡ false
    → changes (is_model id) ms ≡ 0
changes-none id [] h = refl
changes-none id (m ∷ ms) h = ground (arith, changes-none id ms)

changes-one :
    (id : String) (ms : List CatalogModel)
    → UniqueModels ms
    → any (is_model id) ms ≡ true
    → changes (is_model id) ms ≡ 1
changes-one id [] u h = absurd (ground arith)
changes-one id (m ∷ ms) u h =
    ground (arith, changes-one id ms u.1, changes-none id ms, eq_iff m.model_id id)

upsert_changes-one :
    (id : String) (ms : List CatalogModel) → UniqueModels ms → upsert_changes (is_model id) ms ≡ 1
upsert_changes-one id ms u = elim (Bool-cases (any (is_model id) ms)) [
  | inl known ↦ rw known (changes-one id ms u known)
  | inr new ↦ rw new
]

any-seen_again :
    (now : ℕ) (o : ObservedModel) (key id : String) (ms : List CatalogModel)
    → any (is_model id) (update (is_model key) (seen_again now o) ms) ≡ any (is_model id) ms
any-seen_again now o key id [] = refl
any-seen_again now o key id (m ∷ ms) = ground (arith, any-seen_again now o key id ms)

seen_again-UniqueModels :
    (now : ℕ) (o : ObservedModel) (key : String) (ms : List CatalogModel)
    → UniqueModels ms
    → UniqueModels (update (is_model key) (seen_again now o) ms)
seen_again-UniqueModels now o key [] u = tt
seen_again-UniqueModels now o key (m ∷ ms) u =
    ground (arith, seen_again-UniqueModels now o key ms u.1, any-seen_again now o key m.model_id ms)

any-append :
    (id : String) (row : CatalogModel) (ms : List CatalogModel)
    → any (is_model id) (ms ++ row ∷ []) ≡ (any (is_model id) ms || row.model_id =ˢ id)
any-append id row [] = ground arith
any-append id row (m ∷ ms) = ground (arith, any-append id row ms)

append-UniqueModels :
    (row : CatalogModel) (ms : List CatalogModel)
    → UniqueModels ms
    → any (is_model row.model_id) ms ≡ false
    → UniqueModels (ms ++ row ∷ [])
append-UniqueModels row [] u h = (refl, tt)
append-UniqueModels row (m ∷ ms) u h = ground (
  arith,
  append-UniqueModels row ms u.1,
  any-append m.model_id row ms,
  eq_iff row.model_id m.model_id,
  eq_iff m.model_id row.model_id,
)

observe_one-UniqueModels :
    (now : ℕ) (b : Bool) (o : ObservedModel) (ms : List CatalogModel)
    → UniqueModels ms
    → UniqueModels (observe_one now b o ms)
observe_one-UniqueModels now b o ms u = elim (Bool-cases (any (is_model o.model_id) ms)) [
  | inl known ↦ rw known (seen_again-UniqueModels now o o.model_id ms u)
  | inr new ↦ rw new (append-UniqueModels _ ms u new)
]

observe_each-count :
    (now : ℕ) (prices : List ModelPrice) (n : ℕ) (os : List ObservedModel) (ms : List CatalogModel)
    → UniqueModels ms
    → (observe_each now prices n os ms).0 ≡ n + length os
unfolding observe_each
observe_each-count now prices n [] ms u = omega arith
observe_each-count now prices n (o ∷ os) ms u =
    observe_each-count now prices (n + upsert_changes (is_model o.model_id) ms) os _
      (observe_one-UniqueModels now (any (prices_model o.model_id) prices) o ms u)
    ∙ omega (arith, upsert_changes-one o.model_id ms u)

-- The catalog holds every one of the observed models.
abbrev are_known : List CatalogModel → List ObservedModel → Bool
are_known ms os = all (λ o. any (is_model o.model_id) ms) os

are_known-seen_again :
    (now : ℕ) (o : ObservedModel) (key : String) (ms : List CatalogModel) (os : List ObservedModel)
    → are_known (update (is_model key) (seen_again now o) ms) os ≡ are_known ms os
are_known-seen_again now o key ms [] = refl
are_known-seen_again now o key ms (x ∷ os) =
    ground (arith, are_known-seen_again now o key ms os, any-seen_again now o key x.model_id ms)

observe_one-known :
    (now : ℕ) (b : Bool) (o : ObservedModel) (ms : List CatalogModel)
    → any (is_model o.model_id) ms ≡ true
    → observe_one now b o ms ≡ update (is_model o.model_id) (seen_again now o) ms
observe_one-known now b o ms known = rw known

observe_each-length :
    (now : ℕ) (prices : List ModelPrice) (n : ℕ) (os : List ObservedModel) (ms : List CatalogModel)
    → are_known ms os ≡ true
    → length (observe_each now prices n os ms).1 ≡ length ms
unfolding observe_each
observe_each-length now prices n [] ms k = refl
observe_each-length now prices n (o ∷ os) ms k =
    let known : any (is_model o.model_id) ms ≡ true = ground arith in
    let has_price = any (prices_model o.model_id) prices in
    observe_each-length now prices (n + upsert_changes (is_model o.model_id) ms) os
      (observe_one now has_price o ms)
      (ap (λ rows. are_known rows os) (observe_one-known now has_price o ms known)
        ∙ are_known-seen_again now o o.model_id ms os
        ∙ ground arith)
    ∙ ap length (observe_one-known now has_price o ms known)
    ∙ length-update (is_model o.model_id) (seen_again now o) ms

observe_one-keeps :
    (now : ℕ) (b : Bool) (o : ObservedModel) (id : String) (ms : List CatalogModel)
    → any (is_model id) ms ≡ true
    → any (is_model id) (observe_one now b o ms) ≡ true
observe_one-keeps now b o id ms h = elim (Bool-cases (any (is_model o.model_id) ms)) [
  | inl known ↦ rw known (any-seen_again now o o.model_id id ms ∙ h)
  | inr new ↦ rw new (any-append id _ ms ∙ rw h)
]

observe_one-knows :
    (now : ℕ) (b : Bool) (o : ObservedModel) (ms : List CatalogModel)
    → any (is_model o.model_id) (observe_one now b o ms) ≡ true
observe_one-knows now b o ms = elim (Bool-cases (any (is_model o.model_id) ms)) [
  | inl known ↦ observe_one-keeps now b o o.model_id ms known
  | inr new ↦ rw new (any-append o.model_id _ ms ∙ rw (new, str_eq_refl o.model_id))
]

observe_each-keeps :
    (now : ℕ) (prices : List ModelPrice) (n : ℕ) (os : List ObservedModel) (id : String)
    (ms : List CatalogModel)
    → any (is_model id) ms ≡ true
    → any (is_model id) (observe_each now prices n os ms).1 ≡ true
unfolding observe_each
observe_each-keeps now prices n [] id ms h = h
observe_each-keeps now prices n (o ∷ os) id ms h =
    observe_each-keeps now prices (n + upsert_changes (is_model o.model_id) ms) os id _
      (observe_one-keeps now (any (prices_model o.model_id) prices) o id ms h)

observe_each-knows :
    (now : ℕ) (prices : List ModelPrice) (n : ℕ) (os : List ObservedModel) (ms : List CatalogModel)
    → are_known (observe_each now prices n os ms).1 os ≡ true
unfolding observe_each
observe_each-knows now prices n [] ms = refl
observe_each-knows now prices n (o ∷ os) ms =
    let has_price = any (prices_model o.model_id) prices in
    let added = n + upsert_changes (is_model o.model_id) ms in
    let head =
      observe_each-keeps now prices added os o.model_id _ (observe_one-knows now has_price o ms) in
    let tail = observe_each-knows now prices added os (observe_one now has_price o ms) in
    ap
      (λ b. b && are_known (observe_each now prices added os (observe_one now has_price o ms)).1 os)
      head
    ∙ tail

observe_each-UniqueModels :
    (now : ℕ) (prices : List ModelPrice) (n : ℕ) (os : List ObservedModel) (ms : List CatalogModel)
    → UniqueModels ms
    → UniqueModels (observe_each now prices n os ms).1
unfolding observe_each
observe_each-UniqueModels now prices n [] ms u = u
observe_each-UniqueModels now prices n (o ∷ os) ms u =
    observe_each-UniqueModels now prices (n + upsert_changes (is_model o.model_id) ms) os _
      (observe_one-UniqueModels now (any (prices_model o.model_id) prices) o ms u)

-- Model ids being unique, the number that is reported as added is the number of models observed. It
-- is so again when the same models are observed a second time, which adds no row to the catalog.
pub observe_catalog_models-count :
    (now later : ℕ) (os : List ObservedModel) (db : Db)
    → UniqueModels db.models
    → let first = (observe_catalog_models now os db).1 in
      ((observe_catalog_models now os db).0 ≡ length os)
      × ((observe_catalog_models later os first).0 ≡ length os)
      × (length (observe_catalog_models later os first).1.models ≡ length first.models)
unfolding observe_catalog_models
observe_catalog_models-count now later os db u = (
  observe_each-count now db.prices 0 os db.models u ∙ omega arith,
  observe_each-count later db.prices 0 os _
        (observe_each-UniqueModels now db.prices 0 os db.models u)
      ∙ omega arith,
  observe_each-length later db.prices 0 os _ (observe_each-knows now db.prices 0 os db.models),
)
