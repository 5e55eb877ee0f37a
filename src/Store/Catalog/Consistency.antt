-- ===== src/Store/Catalog/Consistency.antt =====
-- Prices, costs and the review queue move together.
use relaydot.Prelude.{
  ℕ, ◌≡◌, refl, sym, subst, String, true, false, ◌&&◌, Option, none, some, List, [], ◌∷◌, map,
  arith, ◌=ˢ◌, eq_iff, if◌then◌else◌, any, first, update, delete, changes, ◌==◌, All, Bool-cases,
  inl, inr, first-append,
}
use relaydot.Prices.{estimate_cost}
use relaydot.Store.Schema.{UsageFact, PriceRates, ModelPrice, exact, unpriced, Db}
use relaydot.Store.Usage.{is_fact, reprice_model}
use relaydot.Store.Usage.Reprice.{UniqueFacts, repriced, reprice_model-eq-map}
use relaydot.Store.Catalog.{
  PriceInput, prices_model, is_model, price_row, upsert_price, promote, approve,
  upsert_model_prices, is_priced, withdrawn, delete_model_price,
}

-- The cost that a fact should have, given the price of its model.
abbrev pub Costed : Option ModelPrice → UsageFact → Type 0
Costed none f = (f.estimated_cost ≡ none) × (f.price_match ≡ unpriced)
Costed (some p) f =
    (f.estimated_cost ≡ some (estimate_cost f.tokens p.rates)) × (f.price_match ≡ exact)

-- Every stored cost is that of the stored tokens at the approved price.
abbrev pub AllCosted : List ModelPrice → List UsageFact → Type 0
AllCosted prices = All (λ f. Costed (first (prices_model f.model_id) prices) f)

first-upsert_price :
    (row : ModelPrice) (prices : List ModelPrice) (id : String)
    → first (prices_model id) (upsert_price row prices)
      ≡ (if row.model_id =ˢ id then some row else first (prices_model id) prices)
first-upsert_price row prices id = elim (Bool-cases (any (prices_model row.model_id) prices)) [
  | inl there ↦ rw there (updated prices there)
  | inr gone ↦ rw gone (
      ground (
        arith,
        first-append (prices_model id) prices (row ∷ []),
        missing prices gone,
        eq_iff row.model_id id,
      ))
]
  where
    missing :
        (ps : List ModelPrice)
        → any (prices_model row.model_id) ps ≡ false
        → first (prices_model row.model_id) ps ≡ none
    missing [] h = refl
    missing (p ∷ ps) h = ground (arith, missing ps)

    passed :
        (ps : List ModelPrice)
        → (row.model_id =ˢ id) ≡ false
        → first (prices_model id) (update (prices_model row.model_id) (λ _. row) ps)
          ≡ first (prices_model id) ps
    passed [] h = refl
    passed (p ∷ ps) h =
        ground (arith, passed ps, eq_iff p.model_id row.model_id, eq_iff p.model_id id)

    updated :
        (ps : List ModelPrice)
        → any (prices_model row.model_id) ps ≡ true
        → first (prices_model id) (update (prices_model row.model_id) (λ _. row) ps)
          ≡ (if row.model_id =ˢ id then some row else first (prices_model id) ps)
    updated [] h = cc
    updated (p ∷ ps) h = ground (
      arith,
      updated ps,
      passed ps,
      eq_iff p.model_id row.model_id,
      eq_iff p.model_id id,
      eq_iff row.model_id id,
    )

first-delete :
    (gone id : String) (prices : List ModelPrice)
    → first (prices_model id) (delete (prices_model gone) prices)
      ≡ (if gone =ˢ id then none else first (prices_model id) prices)
first-delete gone id [] = ground arith
first-delete gone id (p ∷ ps) =
    ground
      (arith, first-delete gone id ps, eq_iff p.model_id gone, eq_iff p.model_id id, eq_iff gone id)

-- Repricing the facts of a model whose price changes keeps every cost right.
repriced-Costed :
    (model_id : String) (now : Option ModelPrice) (rates : Option PriceRates)
    (before after : List ModelPrice)
    → elim now [ none ↦ none | some p ↦ some p.rates ] ≡ rates
    → ((id : String)
        → first (prices_model id) after
          ≡ (if model_id =ˢ id then now else first (prices_model id) before))
    → (fs : List UsageFact) → AllCosted before fs
    → AllCosted after (map (repriced model_id rates) fs)
repriced-Costed model_id now rates before after r change [] h = tt
repriced-Costed model_id now rates before after r change (f ∷ fs) (h, hs) =
    (one now r change, repriced-Costed model_id now rates before after r change fs hs)
  where
    one :
        (p : Option ModelPrice)
        → elim p [ none ↦ none | some q ↦ some q.rates ] ≡ rates
        → ((id : String)
            → first (prices_model id) after
              ≡ (if model_id =ˢ id then p else first (prices_model id) before))
        → Costed
            (first (prices_model (repriced model_id rates f).model_id) after)
            (repriced model_id rates f)
    one none e k =
        ground (arith, k f.model_id, eq_iff f.model_id model_id, eq_iff model_id f.model_id)
    one (some q) e k =
        ground (arith, k f.model_id, eq_iff f.model_id model_id, eq_iff model_id f.model_id)

UniqueFacts-repriced :
    (model_id : String) (rates : Option PriceRates) (fs : List UsageFact)
    → UniqueFacts fs
    → UniqueFacts (map (repriced model_id rates) fs)
UniqueFacts-repriced model_id rates [] u = tt
UniqueFacts-repriced model_id rates (f ∷ fs) (u, us) =
    (away (kept rates f) fs u, UniqueFacts-repriced model_id rates fs us)
  where
    kept :
        (o : Option PriceRates) (x : UsageFact)
        → (repriced model_id o x).usage_fact_id ≡ x.usage_fact_id
    kept none x = ground arith
    kept (some r) x = ground arith

    away :
        {id : String}
        → id ≡ f.usage_fact_id
        → (xs : List UsageFact) → any (is_fact f.usage_fact_id) xs ≡ false
        → any (is_fact id) (map (repriced model_id rates) xs) ≡ false
    away e [] h = refl
    away e (x ∷ xs) h = ground (arith, away e xs, kept rates x)

-- The databases whose costs are right: fact ids are unique, and each fact is costed from its own
-- tokens at the approved price of its model, or not at all where there is none.
pub record IsCosted (db : Db) : Type 0 where
  pub unique : UniqueFacts db.facts
  pub costed : AllCosted db.prices db.facts

approve-IsCosted : (now : ℕ) (i : PriceInput) (db : Db) → IsCosted db → IsCosted (approve now i db)
unfolding approve
approve-IsCosted now i db v =
    subst IsCosted
      (sym (
        reprice_model-eq-map i.model_id (some i.rates)
          (record db {
            prices = upsert_price (price_row now i) db.prices;
            models = update (is_model i.model_id) (promote now) db.models;
          })
          v.unique))
      (record {
        unique = UniqueFacts-repriced i.model_id (some i.rates) db.facts v.unique;
        costed =
            repriced-Costed i.model_id (some (price_row now i)) (some i.rates) db.prices
              (upsert_price (price_row now i) db.prices) refl
              (first-upsert_price (price_row now i) db.prices) db.facts v.costed;
      })

-- Approving prices, the seed included, keeps every stored cost that of the stored tokens at the
-- price that is then approved, and fact ids unique.
pub upsert_model_prices-IsCosted :
    (now : ℕ) (is : List PriceInput) (db : Db)
    → IsCosted db
    → IsCosted (upsert_model_prices now is db)
unfolding upsert_model_prices
upsert_model_prices-IsCosted now [] db v = v
upsert_model_prices-IsCosted now (i ∷ is) db v =
    upsert_model_prices-IsCosted now is (approve now i db) (approve-IsCosted now i db v)

-- Withdrawing a price keeps every stored cost that of the stored tokens at the price that is then
-- approved, a fact without a price having none, and fact ids unique.
pub delete_model_price-IsCosted :
    (model_id : String) (db : Db) → IsCosted db → IsCosted (delete_model_price model_id db).1
unfolding delete_model_price
delete_model_price-IsCosted model_id db v =
    elim (Bool-cases (changes (prices_model model_id) db.prices == 0)) [
      | inl nothing ↦ subst IsCosted (ground arith) v
      | inr some_gone ↦ subst IsCosted (sym (split some_gone)) withdrawn_costs
    ]
  where
    left : Db
    left = record db {
      prices = delete (prices_model model_id) db.prices;
      models = update (λ m. is_model model_id m && is_priced m.status) withdrawn db.models;
    }

    split :
        (changes (prices_model model_id) db.prices == 0) ≡ false
        → (delete_model_price model_id db).1 ≡ (reprice_model model_id none left).1
    split e = rw e

    withdrawn_costs : IsCosted (reprice_model model_id none left).1
    withdrawn_costs =
        subst IsCosted (sym (reprice_model-eq-map model_id none left v.unique)) (record {
          unique = UniqueFacts-repriced model_id none db.facts v.unique;
          costed =
              repriced-Costed model_id none none db.prices
                (delete (prices_model model_id) db.prices) refl
                (λ id. first-delete model_id id db.prices) db.facts v.costed;
        })
