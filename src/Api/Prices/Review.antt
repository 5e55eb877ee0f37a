-- ===== src/Api/Prices/Review.antt =====
-- Which prices an operator approves without a confirmation.
use relaydot.Prelude.{
  ℕ, suc, ◌*◌, ◌≤◌, ◌≡◌, refl, String, true, false, Option, none, some, List, [], ◌∷◌, ◌⊎◌, inl,
  inr, arith, first, Bool-cases, Option-cases, Result-cases, Result, ok, err, Exec, ◌>>=◌, lift,
  result, after, ◌==◌,
}
use relaydot.Json.{Number, ratio, Json, bool, obj, Row, get}
use relaydot.Store.Schema.{PriceRates, ModelPrice, Db}
use relaydot.Store.Catalog.{PriceInput, prices_model, model_prices, upsert_model_prices}
use relaydot.Sources.{CatalogSources}
use relaydot.Access.{Runtime, Config, Request, Reply, require_admin}
use relaydot.Api.{Response, approved, json, on_refusal, as_admin, handle, object_of, body_object}
use relaydot.Api.Rates.{read_price}
use relaydot.Api.Prices.{
  distance, moves_over, guard_fields, guarded_fields, threshold_of, rate_change_guard, is_confirmed,
  save_row, save_price_handler,
}

-- A rate that was zero, or that moves by at most `m / (below + 1)` percent.
abbrev pub IsClose : ℕ → ℕ → ℕ → ℕ → Type 0
IsClose m below before after = (before ≡ 0) ⊎ (distance before after * 100 * suc below ≤ m * before)

-- The five rates that the guard compares: that of the other cache writes is not among them.
abbrev pub AreClose : ℕ → ℕ → PriceRates → PriceRates → Type 0
AreClose m below old new =
    IsClose m below old.input_uncached new.input_uncached
    × IsClose m below old.cache_write_5m new.cache_write_5m
    × IsClose m below old.cache_write_1h new.cache_write_1h
    × IsClose m below old.cache_read new.cache_read
    × IsClose m below old.output new.output

-- The model has no price, or the rates of the new one are close to those of the old.
abbrev pub IsReviewed : ℕ → ℕ → PriceInput → Db → Type 0
IsReviewed m below row db =
    (first (prices_model row.model_id) (model_prices db) ≡ none)
    ⊎ ((old : ModelPrice) × (first (prices_model row.model_id) (model_prices db) ≡ some old)
        × AreClose m below old.rates row.rates)

object_of-some :
    (value : Option Json) (body : Row) → object_of value ≡ ok body → value ≡ some (obj body)
object_of-some none body h = absurd (ground arith)
object_of-some (some value) body h = ground arith

module _ (show show_whole : Number → String) where
  guard_fields-head :
      (m below before after : ℕ) (field : String) (rows : List (String × (ℕ × ℕ)))
      → guard_fields show show_whole (ratio false m below) ((field, (before, after)) ∷ rows) ≡ none
      → IsClose m below before after
        × (guard_fields show show_whole (ratio false m below) rows ≡ none)
  unfolding guard_fields
  guard_fields-head m below before after field rows h = elim (Bool-cases (before == 0)) [
    | inl z ↦ (inl (ground arith), ground arith)
    | inr z ↦ elim (Bool-cases (moves_over (ratio false m below) before after)) [
      | inl over ↦ absurd (ground arith)
      | inr close ↦ (inr (ground arith), ground arith)
    ]
  ]

  guard_fields-AreClose :
      (m below : ℕ) (old new : PriceRates)
      → guard_fields show show_whole (ratio false m below) (guarded_fields old new) ≡ none
      → AreClose m below old new
  guard_fields-AreClose m below old new h =
      let (a, h) = guard_fields-head m below old.input_uncached new.input_uncached _ _ h in
      let (b, h) = guard_fields-head m below old.cache_write_5m new.cache_write_5m _ _ h in
      let (c, h) = guard_fields-head m below old.cache_write_1h new.cache_write_1h _ _ h in
      let (d, h) = guard_fields-head m below old.cache_read new.cache_read _ _ h in
      let (e, h) = guard_fields-head m below old.output new.output _ _ h in (a, b, c, d, e)

  is_confirmed-true : (value : Option Json) → is_confirmed value ≡ true → value ≡ some (bool true)
  is_confirmed-true (some (bool true)) h = refl
  is_confirmed-true value h = ground arith

  rate_change_guard-IsReviewed :
      (sources : Option CatalogSources) (m below : ℕ) (row : PriceInput) (db : Db)
      → threshold_of sources ≡ ratio false m below
      → rate_change_guard show show_whole sources row false db ≡ none
      → IsReviewed m below row db
  unfolding rate_change_guard
  rate_change_guard-IsReviewed sources m below row db t h =
      elim (Option-cases (first (prices_model row.model_id) (model_prices db))) [
        | inl e ↦ inl e
        | inr (old, e) ↦
            inr (old, e, guard_fields-AreClose m below old.rates row.rates (ground arith))
      ]

  save_row-IsReviewed :
      (sources : Option CatalogSources) (m below now : ℕ) (body : Row) (row : PriceInput)
      (id : String) (db : Db)
      → threshold_of sources ≡ ratio false m below
      → result (save_row show show_whole sources now body row) db ≡ ok (json (approved id) 200)
      → (after (save_row show show_whole sources now body row) db
          ≡ upsert_model_prices now (row ∷ []) db)
        × ((get "confirm" body ≡ some (bool true)) ⊎ IsReviewed m below row db)
  unfolding save_row
  save_row-IsReviewed sources m below now body row id db t h =
      elim (Option-cases
        (rate_change_guard show show_whole sources row (is_confirmed (get "confirm" body)) db)) [
          | inr (message, e) ↦ absurd (ground arith)
          | inl e ↦ (
            ground arith,
            elim (Bool-cases (is_confirmed (get "confirm" body))) [
              | inl c ↦ inl (is_confirmed-true (get "confirm" body) c)
              | inr c ↦ inr (rate_change_guard-IsReviewed sources m below row db t (ground arith))
            ],
          )
        ]

  module _ (rt : Runtime) (sources : Option CatalogSources) (cfg : Config) (now : ℕ)
      (r : Request) where
    action : Exec Db Response
    action = handle (
        body_object r >>= λ body. lift (read_price rt.protocol_of body) >>= λ row.
        save_row show show_whole sources now body row)

    -- What the database is before and after an approval of the body's row.
    abbrev pub IsApproval : ℕ → ℕ → Db → Db → Type 0
    IsApproval m below before new =
        (body : Row) × (row : PriceInput) × (r.body ≡ some (obj body))
        × (read_price rt.protocol_of body ≡ ok row)
        × (new ≡ upsert_model_prices now (row ∷ []) before)
        × ((get "confirm" body ≡ some (bool true)) ⊎ IsReviewed m below row before)

    action-IsApproval :
        (m below : ℕ) (id : String) (db : Db)
        → threshold_of sources ≡ ratio false m below
        → result action db ≡ ok (json (approved id) 200)
        → IsApproval m below db (after action db)
    unfolding action handle
    action-IsApproval m below id db t h = elim (Result-cases (object_of r.body)) [
      | inr (x, b) ↦ absurd (ground arith)
      | inl (body, b) ↦ elim (Result-cases (read_price rt.protocol_of body)) [
        | inr (x, e) ↦ absurd (ground arith)
        | inl (row, e) ↦
            let (saved, reviewed) =
              save_row-IsReviewed sources m below now body row id db t (ground arith) in
            (body, row, object_of-some r.body body b, e, ground arith, reviewed)
      ]
    ]

    admitted :
        (m below : ℕ) (id : String) (db : Db) (p : Result (Option Reply) × Db)
        → threshold_of sources ≡ ratio false m below
        → result ((λ (s : Db). p) >>= on_refusal action) db ≡ ok (json (approved id) 200)
        → IsApproval m below p.1 (after ((λ (s : Db). p) >>= on_refusal action) db)
    admitted m below id db (ok none, s) t h = action-IsApproval m below id s t h
    admitted m below id db (ok (some reply), s) t h = absurd (ground arith)
    admitted m below id db (err e, s) t h = absurd (ground arith)

-- A request whose price is approved asks for the row that its body holds, and that row alone is
-- written. The body confirms it, or the model has no price, or each of its rates that was not zero,
-- that of the other cache writes aside, moves by at most the threshold of the sources, which is
-- `m / (below + 1)` percent.
pub save_price_handler-IsApproval :
    (show show_whole : Number → String) (rt : Runtime) (sources : Option CatalogSources)
    (cfg : Config) (now : ℕ) (r : Request) (m below : ℕ) (id : String) (db : Db)
    → threshold_of sources ≡ ratio false m below
    → result (save_price_handler show show_whole rt sources cfg now r) db
      ≡ ok (json (approved id) 200)
    → IsApproval show show_whole rt sources cfg now r m below
        (after (require_admin rt cfg now r) db)
        (after (save_price_handler show show_whole rt sources cfg now r) db)
unfolding save_price_handler as_admin action
save_price_handler-IsApproval show show_whole rt sources cfg now r m below id db t h =
    admitted show show_whole rt sources cfg now r m below id db (require_admin rt cfg now r db) t h
