-- ===== src/Yaml/Rows.antt =====
-- Printed rows as the lines of apps/web/src/lib/yaml-lite.ts: their sizes, their columns, and the
-- fields that the loops collect.
use relaydot.Prelude.{
  ℕ, suc, ◌+◌, ◌≤◌, ◌<◌, String, Bool, false, ◌≡◌, refl, ap, ◌≢◌, none, List, [], ◌∷◌, ◌=ˢ◌, arith,
  eq_iff, Bool-cases, inl, inr, subst,
}
use relaydot.Json.{Json, null, bool, num, str, arr, obj, Items, nil, cons, Fields, end, field, get}
use relaydot.Yaml.Lines.{Line}
use relaydot.Yaml.Blocks.{append_field, append_item, characters, size_of, is_taken}
use relaydot.Yaml.Keys.{IsKeyed, IsMapping}
use relaydot.Yaml.Printer.{Row, behind_dash, block_onto, items_onto, item_onto, fields_onto}

abbrev pub line_at : ℕ → ℕ → String → Line
line_at n column text = record { indent = column; text = text; number = n }

-- The lines of rows, with their numbers from `n` on.
abbrev pub numbered : ℕ → List Row → List Line
numbered n [] = []
numbered n ((column, text) ∷ rows) = line_at n column text ∷ numbered (suc n) rows

abbrev pub rows_size : List Row → ℕ
rows_size [] = 0
rows_size ((column, text) ∷ rows) = suc (characters text) + rows_size rows

pub size_of-numbered : (n : ℕ) (rows : List Row) → size_of (numbered n rows) ≡ rows_size rows
size_of-numbered n [] = refl
size_of-numbered n ((column, text) ∷ rows) = omega (arith, size_of-numbered (suc n) rows)

-- The first row, if there is one, stands left of a column.
abbrev pub Below : ℕ → List Row → Type 0
Below k [] = Unit
Below k ((column, text) ∷ rows) = column < k

pub Below-mono : (j k : ℕ) (rows : List Row) → j ≤ k → Below j rows → Below k rows
Below-mono j k [] le h = tt
Below-mono j k ((column, text) ∷ rows) le h = omega arith

behind_dash-size :
    (column : ℕ) (rows : List Row) → rows_size rows ≤ rows_size (behind_dash column rows)
behind_dash-size column [] = omega arith
behind_dash-size column ((j, text) ∷ rows) = omega arith

mutual
  unfolding block_onto

  pub block_onto-grows :
      (v : Json) (column : ℕ) (rest : List Row)
      → rows_size rest ≤ rows_size (block_onto column v rest)
  block_onto-grows (arr items) column rest = items_onto-grows items column rest
  block_onto-grows (obj fields) column rest = fields_onto-grows fields column rest
  block_onto-grows null column rest = omega arith
  block_onto-grows (bool b) column rest = omega arith
  block_onto-grows (num n) column rest = omega arith
  block_onto-grows (str s) column rest = omega arith

  pub item_onto-grows :
      (v : Json) (column : ℕ) (rest : List Row)
      → rows_size rest ≤ rows_size (item_onto column v rest)
  item_onto-grows (arr items) column rest = omega (arith, items_onto-grows items (column + 2) rest)
  item_onto-grows (obj fields) column rest = omega (
    arith,
    fields_onto-grows fields (column + 2) rest,
    behind_dash-size column (fields_onto (column + 2) fields rest),
  )
  item_onto-grows null column rest = omega arith
  item_onto-grows (bool b) column rest = omega arith
  item_onto-grows (num n) column rest = omega arith
  item_onto-grows (str s) column rest = omega arith

  pub items_onto-grows :
      (vs : Items) (column : ℕ) (rest : List Row)
      → rows_size rest ≤ rows_size (items_onto column vs rest)
  items_onto-grows nil column rest = omega arith
  items_onto-grows (cons v vs) column rest =
      omega (
        arith,
        item_onto-grows v column (items_onto column vs rest),
        items_onto-grows vs column rest,
      )

  pub fields_onto-grows :
      (fs : Fields) (column : ℕ) (rest : List Row)
      → rows_size rest ≤ rows_size (fields_onto column fs rest)
  fields_onto-grows end column rest = omega arith
  fields_onto-grows (field k v fs) column rest = omega (
    arith,
    block_onto-grows v (column + 2) (fields_onto column fs rest),
    fields_onto-grows fs column rest,
  )

-- What comes after the first field, or the first item, stands at the column of the block or left of
-- it.
pub fields_onto-Below :
    (fs : Fields) (column : ℕ) (rest : List Row)
    → Below column rest
    → Below (column + 2) (fields_onto column fs rest)
unfolding fields_onto
fields_onto-Below end column rest h = Below-mono column (column + 2) rest (omega arith) h
fields_onto-Below (field k v fs) column rest h = omega arith

behind_dash-Below : (column : ℕ) (rows : List Row) → Below (column + 2) (behind_dash column rows)
behind_dash-Below column [] = tt
behind_dash-Below column ((j, text) ∷ rows) = omega arith

item_onto-Below :
    (v : Json) (column : ℕ) (rest : List Row) → Below (column + 2) (item_onto column v rest)
unfolding item_onto
item_onto-Below (obj fields) column rest =
    behind_dash-Below column (fields_onto (column + 2) fields rest)
item_onto-Below _ column rest = omega arith

pub items_onto-Below :
    (vs : Items) (column : ℕ) (rest : List Row)
    → Below column rest
    → Below (column + 2) (items_onto column vs rest)
unfolding items_onto
items_onto-Below nil column rest h = Below-mono column (column + 2) rest (omega arith) h
items_onto-Below (cons v vs) column rest h = item_onto-Below v column (items_onto column vs rest)

unfoldable pub concat_fields : Fields → Fields → Fields
concat_fields end fs = fs
concat_fields (field k v gs) fs = field k v (concat_fields gs fs)

unfoldable pub concat_items : Items → Items → Items
concat_items nil vs = vs
concat_items (cons w ws) vs = cons w (concat_items ws vs)

pub concat_fields-end : (fs : Fields) → concat_fields fs end ≡ fs
unfolding concat_fields
concat_fields-end end = refl
concat_fields-end (field k v fs) = ap (field k v) (concat_fields-end fs)

pub concat_items-nil : (vs : Items) → concat_items vs nil ≡ vs
unfolding concat_items
concat_items-nil nil = refl
concat_items-nil (cons v vs) = ap (cons v) (concat_items-nil vs)

pub concat_fields-append_field :
    (gs : Fields) (k : String) (v : Json) (fs : Fields)
    → concat_fields (append_field gs k v) fs ≡ concat_fields gs (field k v fs)
unfolding concat_fields
concat_fields-append_field end k v fs = refl
concat_fields-append_field (field j w gs) k v fs =
    ap (field j w) (concat_fields-append_field gs k v fs)

pub concat_items-append_item :
    (ws : Items) (v : Json) (vs : Items)
    → concat_items (append_item ws v) vs ≡ concat_items ws (cons v vs)
unfolding concat_items
concat_items-append_item nil v vs = refl
concat_items-append_item (cons w ws) v vs = ap (cons w) (concat_items-append_item ws v vs)

get-concat_fields :
    (gs : Fields) (k : String) (v : Json) (fs : Fields)
    → get k (concat_fields gs (field k v fs)) ≢ none
unfolding concat_fields
get-concat_fields end k v fs e = ground (arith, eq_iff k k)
get-concat_fields (field j w gs) k v fs e = ground (arith, get-concat_fields gs k v fs)

module _ (is_inherited : String → Bool) where
  IsMapping-right :
      (gs fs : Fields) → IsMapping is_inherited (concat_fields gs fs) → IsMapping is_inherited fs
  unfolding concat_fields IsMapping
  IsMapping-right end fs h = h
  IsMapping-right (field k v gs) fs h = IsMapping-right gs fs h.4

  get-fresh :
      (gs : Fields) (k : String) (v : Json) (fs : Fields)
      → IsMapping is_inherited (concat_fields gs (field k v fs))
      → get k gs ≡ none
  unfolding concat_fields IsMapping
  get-fresh end k v fs h = refl
  get-fresh (field j w gs) k v fs h = elim (Bool-cases (j =ˢ k)) [
    | inl e ↦ absurd (
        get-concat_fields gs k v fs
          (subst (λ i. get i (concat_fields gs (field k v fs)) ≡ none) ((eq_iff j k).0 e) h.2))
    | inr e ↦ rw (get-fresh gs k v fs h.4, e)
  ]

  -- A field that stands behind others in a mapping with distinct keys is new to them.
  pub is_taken-fresh :
      (gs : Fields) (k : String) (v : Json) (fs : Fields)
      → IsMapping is_inherited (concat_fields gs (field k v fs))
      → (k ≢ "") × (is_taken is_inherited k gs ≡ false) × IsKeyed is_inherited v
  unfolding IsMapping
  is_taken-fresh gs k v fs h =
      let own = IsMapping-right gs (field k v fs) h in
      (own.0, rw (own.1, get-fresh gs k v fs h), own.3)
