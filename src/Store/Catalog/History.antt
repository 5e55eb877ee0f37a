-- ===== src/Store/Catalog/History.antt =====
-- apps/web/src/lib/store.ts: the catalog and its prices through any history of changes.
use relaydot.Prelude.{ℕ, String, ◌≡◌, true, List}
use relaydot.Store.Schema.{CatalogStatus, Db, empty}
use relaydot.Store.Catalog.{
  PriceInput, ObservedModel, upsert_model_prices, delete_model_price, observe_catalog_models,
  set_catalog_model_status,
}
use relaydot.Store.Catalog.Queue.{
  IsListed, settable, upsert_model_prices-IsListed, delete_model_price-IsListed,
  observe_catalog_models-IsListed, set_catalog_model_status-IsListed,
}

-- The databases that any sequence of these methods makes of the one the migrations create.
pub data Reached : Db → Type 0 where
  created : Reached empty
  approved :
      {db : Db} (now : ℕ) (is : List PriceInput)
      → Reached db
      → Reached (upsert_model_prices now is db)
  withdrawn : {db : Db} (id : String) → Reached db → Reached (delete_model_price id db).1
  observed :
      {db : Db} (now : ℕ) (os : List ObservedModel)
      → Reached db
      → Reached (observe_catalog_models now os db).1
  status_set :
      {db : Db} (id : String) (status : CatalogStatus)
      → settable status ≡ true
      → Reached db
      → Reached (set_catalog_model_status id status db).1

-- After any sequence of approvals, withdrawals, observations of models and settings that the API lets
-- an operator make, the status of every model agrees with the approved prices.
pub Reached-IsListed : {db : Db} → Reached db → IsListed db
Reached-IsListed created = tt
Reached-IsListed (approved {db} now is r) =
    upsert_model_prices-IsListed now is db (Reached-IsListed r)
Reached-IsListed (withdrawn {db} id r) = delete_model_price-IsListed id db (Reached-IsListed r)
Reached-IsListed (observed {db} now os r) =
    observe_catalog_models-IsListed now os db (Reached-IsListed r)
Reached-IsListed (status_set {db} id status s r) =
    set_catalog_model_status-IsListed id status db s (Reached-IsListed r)
