-- ===== src/Store/Catalog/Queue.antt =====
-- The review queue: the status of a catalog model says whether it has an approved price.
use relaydot.Prelude.{
  ℕ, ◌+◌, ◌≡◌, refl, String, Bool, true, false, ◌&&◌, ◌||◌, List, [], ◌∷◌, ◌++◌, arith, ◌=ˢ◌,
  eq_iff, if◌then◌else◌, any, update, delete, changes, upsert_changes, ◌==◌, All, All-append,
  Bool-cases, inl, inr,
}
use relaydot.Store.Schema.{
  ModelPrice, CatalogModel, CatalogStatus, needs_price, priced, ignored, Db,
}
use relaydot.Store.Usage.{reprice_model}
use relaydot.Store.Catalog.{
  PriceInput, prices_model, is_model, price_row, upsert_price, promote, approve,
  upsert_model_prices, is_priced, withdrawn, delete_model_price, ObservedModel, observed_row,
  seen_again, observe_one, observe_each, observe_catalog_models, resolve_status,
  set_catalog_model_status,
}

-- `needs_price` says that no price is approved, and `priced` that one is.
abbrev pub Agrees : CatalogStatus → Bool → Type 0
Agrees needs_price has_price = has_price ≡ false
Agrees priced has_price = has_price ≡ true
Agrees ignored has_price = Unit

abbrev pub Listed : List ModelPrice → CatalogModel → Type 0
Listed prices m = Agrees m.status (any (prices_model m.model_id) prices)

abbrev pub IsListed : Db → Type 0
IsListed db = All (Listed db.prices) db.models

any-upsert_price :
    (row : ModelPrice) (prices : List ModelPrice) (id : String)
    → any (prices_model id) (upsert_price row prices)
      ≡ (row.model_id =ˢ id || any (prices_model id) prices)
any-upsert_price row prices id = elim (Bool-cases (any (prices_model row.model_id) prices)) [
  | inl there ↦ rw there (updated prices there)
  | inr gone ↦ rw gone (appended prices)
]
  where
    appended :
        (ps : List ModelPrice)
        → any (prices_model id) (ps ++ row ∷ []) ≡ (row.model_id =ˢ id || any (prices_model id) ps)
    appended [] = refl
    appended (p ∷ ps) = ground (arith, appended ps)

    passed :
        (ps : List ModelPrice)
        → (row.model_id =ˢ id) ≡ false
        → any (prices_model id) (update (prices_model row.model_id) (λ _. row) ps)
          ≡ any (prices_model id) ps
    passed [] h = refl
    passed (p ∷ ps) h =
        ground (arith, passed ps, eq_iff p.model_id row.model_id, eq_iff p.model_id id)

    updated :
        (ps : List ModelPrice)
        → any (prices_model row.model_id) ps ≡ true
        → any (prices_model id) (update (prices_model row.model_id) (λ _. row) ps)
          ≡ (row.model_id =ˢ id || any (prices_model id) ps)
    updated [] h = cc
    updated (p ∷ ps) h = ground (
      arith,
      updated ps,
      passed ps,
      eq_iff p.model_id row.model_id,
      eq_iff p.model_id id,
      eq_iff row.model_id id,
    )

any-delete :
    (gone id : String) (prices : List ModelPrice)
    → any (prices_model id) (delete (prices_model gone) prices)
      ≡ (if gone =ˢ id then false else any (prices_model id) prices)
any-delete gone id [] = ground arith
any-delete gone id (p ∷ ps) =
    ground
      (arith, any-delete gone id ps, eq_iff p.model_id gone, eq_iff p.model_id id, eq_iff gone id)

promoted-Listed :
    (now : ℕ) (row : ModelPrice) (prices : List ModelPrice) (models : List CatalogModel)
    → All (Listed prices) models
    → All (Listed (upsert_price row prices)) (update (is_model row.model_id) (promote now) models)
promoted-Listed now row prices [] h = tt
promoted-Listed now row prices (m ∷ ms) (h, hs) =
    (one m.status refl, promoted-Listed now row prices ms hs)
  where
    one :
        (s : CatalogStatus)
        → m.status ≡ s
        → Listed (upsert_price row prices) (if is_model row.model_id m then promote now m else m)
    one s e = ground (
      arith,
      any-upsert_price row prices m.model_id,
      eq_iff m.model_id row.model_id,
      eq_iff row.model_id m.model_id,
    )

-- Approving prices keeps the status of every model in agreement with the approved prices.
pub upsert_model_prices-IsListed :
    (now : ℕ) (is : List PriceInput) (db : Db)
    → IsListed db
    → IsListed (upsert_model_prices now is db)
unfolding upsert_model_prices approve reprice_model
upsert_model_prices-IsListed now [] db h = h
upsert_model_prices-IsListed now (i ∷ is) db h =
    upsert_model_prices-IsListed now is (approve now i db)
      (promoted-Listed now (price_row now i) db.prices db.models h)

withdrawn-Listed :
    (gone : String) (prices : List ModelPrice) (models : List CatalogModel)
    → All (Listed prices) models
    → All
        (Listed (delete (prices_model gone) prices))
        (update (λ m. is_model gone m && is_priced m.status) withdrawn models)
withdrawn-Listed gone prices [] h = tt
withdrawn-Listed gone prices (m ∷ ms) (h, hs) =
    (one m.status refl, withdrawn-Listed gone prices ms hs)
  where
    one :
        (s : CatalogStatus)
        → m.status ≡ s
        → Listed
            (delete (prices_model gone) prices)
            (if is_model gone m && is_priced m.status then withdrawn m else m)
    one s e =
        ground
          (arith, any-delete gone m.model_id prices, eq_iff m.model_id gone, eq_iff gone m.model_id)

-- Withdrawing a price keeps the status of every model in agreement with the prices that are left.
pub delete_model_price-IsListed :
    (model_id : String) (db : Db) → IsListed db → IsListed (delete_model_price model_id db).1
unfolding delete_model_price reprice_model
delete_model_price-IsListed model_id db h =
    elim (Bool-cases (changes (prices_model model_id) db.prices == 0)) [
      | inl nothing ↦ rw nothing h
      | inr some_gone ↦ rw some_gone (withdrawn-Listed model_id db.prices db.models h)
    ]

observed-Listed :
    (now : ℕ) (prices : List ModelPrice) (o : ObservedModel) (models : List CatalogModel)
    → All (Listed prices) models
    → All (Listed prices) (observe_one now (any (prices_model o.model_id) prices) o models)
observed-Listed now prices o models h = elim (Bool-cases (any (is_model o.model_id) models)) [
  | inl known ↦ rw known (again models h)
  | inr new ↦
      rw new (
        All-append (Listed prices) models _ h (row (any (prices_model o.model_id) prices) refl, tt))
]
  where
    again :
        (ms : List CatalogModel)
        → All (Listed prices) ms
        → All (Listed prices) (update (is_model o.model_id) (seen_again now o) ms)
    again [] k = tt
    again (m ∷ ms) (k, ks) = (ground arith, again ms ks)

    row :
        (b : Bool) → any (prices_model o.model_id) prices ≡ b → Listed prices (observed_row now b o)
    row true e = e
    row false e = e

observe_each-Listed :
    (now : ℕ) (prices : List ModelPrice) (n : ℕ) (os : List ObservedModel)
    (models : List CatalogModel)
    → All (Listed prices) models
    → All (Listed prices) (observe_each now prices n os models).1
unfolding observe_each
observe_each-Listed now prices n [] models h = h
observe_each-Listed now prices n (o ∷ os) models h =
    observe_each-Listed now prices (n + upsert_changes (is_model o.model_id) models) os _
      (observed-Listed now prices o models h)

-- Observing models keeps the status of every model, the new ones included, in agreement with the
-- prices.
pub observe_catalog_models-IsListed :
    (now : ℕ) (os : List ObservedModel) (db : Db)
    → IsListed db
    → IsListed (observe_catalog_models now os db).1
unfolding observe_catalog_models
observe_catalog_models-IsListed now os db h = observe_each-Listed now db.prices 0 os db.models h

-- What an operator may set through the API.
abbrev pub settable : CatalogStatus → Bool
settable needs_price = true
settable priced = false
settable ignored = true

resolved-Listed :
    (prices : List ModelPrice) (id : String) (status : CatalogStatus) (models : List CatalogModel)
    → settable status ≡ true
    → All (Listed prices) models
    → All (Listed prices) (
        update
          (is_model id)
          (λ m. record m { status = resolve_status status (any (prices_model id) prices) })
          models)
resolved-Listed prices id status [] s h = tt
resolved-Listed prices id status (m ∷ ms) s (h, hs) =
    (one status s, resolved-Listed prices id status ms s hs)
  where
    one :
        (t : CatalogStatus)
        → settable t ≡ true
        → Listed prices (
            if is_model id m
            then record m { status = resolve_status t (any (prices_model id) prices) }
            else m)
    one t k = ground (arith, eq_iff m.model_id id)

-- Setting a status that an operator may set keeps the status of every model in agreement with the
-- prices.
pub set_catalog_model_status-IsListed :
    (model_id : String) (status : CatalogStatus) (db : Db)
    → settable status ≡ true
    → IsListed db
    → IsListed (set_catalog_model_status model_id status db).1
unfolding set_catalog_model_status
set_catalog_model_status-IsListed model_id status db s h =
    resolved-Listed db.prices model_id status db.models s h
