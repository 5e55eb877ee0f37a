-- ===== src/Store/Usage/Reprice.antt =====
-- `repriceModel`, a loop of single-row updates over the rows that it selected first, against the
-- update that it stands for.
use relaydot.Prelude.{
  ℕ, ◌+◌, ◌≡◌, refl, ap, ◌∙◌, String, false, Option, none, some, List, [], ◌∷◌, map, arith, eq_iff,
  if◌then◌else◌, any, select, update, changes, Bool-cases, inl, inr,
}
use relaydot.Store.Schema.{UsageFact, PriceRates, Db}
use relaydot.Store.Usage.{is_fact, of_model, priced_by, reprice_each, reprice_model}

-- `usage_fact_id TEXT PRIMARY KEY`.
abbrev pub UniqueFacts : List UsageFact → Type 0
UniqueFacts [] = Unit
UniqueFacts (f ∷ fs) = (any (is_fact f.usage_fact_id) fs ≡ false) × UniqueFacts fs

-- What repricing a model is meant to do to one fact.
abbrev pub repriced : String → Option PriceRates → UsageFact → UsageFact
repriced model_id rates f = if of_model model_id f then priced_by rates f f else f

module _ (model_id : String) (rates : Option PriceRates) where
  abbrev one : UsageFact → UsageFact → UsageFact
  one row f = if is_fact row.usage_fact_id f then priced_by rates row f else f

  by_rows : List UsageFact → UsageFact → UsageFact
  by_rows [] f = f
  by_rows (r ∷ rs) f = by_rows rs (one r f)

  update-map :
      (r : UsageFact) (fs : List UsageFact)
      → update (is_fact r.usage_fact_id) (priced_by rates r) fs ≡ map (one r) fs
  update-map r [] = refl
  update-map r (f ∷ fs) = ap (λ xs. one r f ∷ xs) (update-map r fs)

  map-by_rows :
      (r : UsageFact) (rs fs : List UsageFact)
      → map (by_rows rs) (map (one r) fs) ≡ map (by_rows (r ∷ rs)) fs
  unfolding by_rows
  map-by_rows r rs [] = refl
  map-by_rows r rs (f ∷ fs) = ap (λ xs. by_rows (r ∷ rs) f ∷ xs) (map-by_rows r rs fs)

  map-id : (fs : List UsageFact) → fs ≡ map (by_rows []) fs
  unfolding by_rows
  map-id [] = refl
  map-id (f ∷ fs) = ap (λ xs. f ∷ xs) (map-id fs)

  reprice_each-map :
      (n : ℕ) (rows fs : List UsageFact) → (reprice_each rates n rows fs).1 ≡ map (by_rows rows) fs
  unfolding reprice_each
  reprice_each-map n [] fs = map-id fs
  reprice_each-map n (r ∷ rows) fs =
      reprice_each-map (n + changes (is_fact r.usage_fact_id) fs) rows
        (update (is_fact r.usage_fact_id) (priced_by rates r) fs)
      ∙ ap (map (by_rows rows)) (update-map r fs)
      ∙ map-by_rows r rows fs

  abbrev picks : List UsageFact → List UsageFact
  picks = select (of_model model_id)

  by_rows-other :
      (rows : List UsageFact) (f : UsageFact)
      → any (is_fact f.usage_fact_id) rows ≡ false
      → by_rows rows f ≡ f
  unfolding by_rows
  by_rows-other [] f h = refl
  by_rows-other (r ∷ rows) f h = ground (
    arith,
    by_rows-other rows f,
    eq_iff r.usage_fact_id f.usage_fact_id,
    eq_iff f.usage_fact_id r.usage_fact_id,
  )

  any-picks :
      (id : String) (fs : List UsageFact)
      → any (is_fact id) fs ≡ false
      → any (is_fact id) (picks fs) ≡ false
  any-picks id [] h = refl
  any-picks id (f ∷ fs) h = ground (arith, any-picks id fs)

  head-repriced :
      (f : UsageFact) (fs : List UsageFact)
      → any (is_fact f.usage_fact_id) fs ≡ false
      → by_rows (picks (f ∷ fs)) f ≡ repriced model_id rates f
  unfolding by_rows
  head-repriced f fs h = elim (Bool-cases (of_model model_id f)) [
    | inl mine ↦ ground (
      arith,
      eq_iff f.usage_fact_id f.usage_fact_id,
      by_rows-other (picks fs) (priced_by rates f f) (at rates),
    )
    | inr other ↦ ground (arith, by_rows-other (picks fs) f (any-picks f.usage_fact_id fs h))
  ]
    where
      at :
          (o : Option PriceRates) → any (is_fact (priced_by o f f).usage_fact_id) (picks fs) ≡ false
      at none = any-picks f.usage_fact_id fs h
      at (some r) = any-picks f.usage_fact_id fs h

  tail-repriced :
      (f : UsageFact) (fs xs : List UsageFact)
      → any (is_fact f.usage_fact_id) xs ≡ false
      → map (by_rows (picks (f ∷ fs))) xs ≡ map (by_rows (picks fs)) xs
  unfolding by_rows
  tail-repriced f fs [] h = refl
  tail-repriced f fs (x ∷ xs) h = ground (
    arith,
    tail-repriced f fs xs,
    eq_iff x.usage_fact_id f.usage_fact_id,
    eq_iff f.usage_fact_id x.usage_fact_id,
  )

  map-repriced :
      (fs : List UsageFact)
      → UniqueFacts fs
      → map (by_rows (picks fs)) fs ≡ map (repriced model_id rates) fs
  map-repriced [] u = refl
  map-repriced (f ∷ fs) (u, us) =
      cc (head-repriced f fs u, tail-repriced f fs fs u, map-repriced fs us)

  -- Repricing a model recomputes the cost of that model's facts, each from its own tokens, and
  -- touches no other fact and no other table, fact ids being unique.
  pub reprice_model-eq-map :
      (db : Db)
      → UniqueFacts db.facts
      → (reprice_model model_id rates db).1
        ≡ record db { facts = map (repriced model_id rates) db.facts }
  unfolding reprice_model
  reprice_model-eq-map db u =
      ap (λ fs. record db { facts = fs })
        (reprice_each-map 0 (picks db.facts) db.facts ∙ map-repriced db.facts u)
