-- ===== src/Yaml/Replay.antt =====
-- apps/web/src/lib/yaml-lite.ts: one round of the loops at a printed field or item.
use relaydot.Prelude.{
  ℕ, suc, ◌+◌, ◌≤◌, ◌<◌, String, Bool, true, false, ◌≡◌, refl, ◌≢◌, none, List, [], ◌∷◌, ◌==◌, leb,
  is_some, arith,
}
use relaydot.Json.{Number, Json, arr, obj, Items, nil, cons, Fields, end, field}
use relaydot.Yaml.{Outcome, done}
use relaydot.Yaml.Lines.{Line}
use relaydot.Yaml.Blocks.{
  Parser, append_field, append_item, value_of, parse_child, mapping_step, sequence_step,
  parse_mapping, parse_sequence, item_of, is_taken,
}
use relaydot.Yaml.Printer.{
  Row, block_onto, items_onto, item_onto, fields_onto, field_text, scalar_text, IsWritable,
  AreWritable,
}
use relaydot.Yaml.Pieces.{
  split_key-field_text, has_key-field_text, has_key-scalar_text, IsScalar, scalar-scalar_text,
  item_of-field_text, scalar_text-ne, dashed, trim-scalar_text, trim-field_text, field_text-ne,
}
use relaydot.Yaml.Keys.{IsMapping}
use relaydot.Yaml.Rows.{numbered, rows_size, Below, items_onto-grows, fields_onto-grows, line_at}

==-self : (c : ℕ) → (c == c) ≡ true
==-self c = ground arith

leb-right : {a b : ℕ} → a < b → leb b a ≡ false
leb-right h = ground arith

-- A run that reads `a` and leaves the lines of `rest`.
abbrev pub ReadsTo : {A : Type 0} → Outcome (A × List Line) → A → List Row → Type 0
ReadsTo r a rest = (m : ℕ) × (r ≡ done (a, numbered m rest))

pub first_of_item :
    (v : Json) (j : ℕ) (rest : List Row)
    → IsWritable v
    → (text : String) × (rows : List Row) × (item_onto j v rest ≡ (j, text) ∷ rows)
      × (is_some (item_of text) ≡ true)
unfolding item_onto IsWritable
first_of_item (arr items) j rest h = ("-", items_onto (j + 2) items rest, refl, refl)
first_of_item (obj end) j rest h = absurd (h.0 refl)
first_of_item (obj (field k v fs)) j rest h =
    (dashed (field_text k v), block_onto (j + 2 + 2) v (fields_onto (j + 2) fs rest), refl, refl)
first_of_item v j rest h = (dashed (scalar_text v), rest, refl, refl)

pub object_item-size :
    (fields : Fields) (column : ℕ) (tail : List Row)
    → fields ≢ end
    → rows_size (fields_onto (column + 2) fields tail) + 2
      ≤ rows_size (item_onto column (obj fields) tail)
unfolding fields_onto
object_item-size end column tail ne = absurd (ne refl)
object_item-size (field k v fs) column tail ne = omega arith

pub item_onto-strict :
    (v : Json) (column : ℕ) (rest : List Row)
    → IsWritable v
    → rows_size rest < rows_size (item_onto column v rest)
unfolding item_onto IsWritable
item_onto-strict (arr items) column rest w = omega (arith, items_onto-grows items (column + 2) rest)
item_onto-strict (obj fields) column rest w =
    omega
      (arith, object_item-size fields column rest w.0, fields_onto-grows fields (column + 2) rest)
item_onto-strict v column rest w = omega arith

module _ (float : String → Number) (quoted : String → String) (is_inherited : String → Bool) where
  abbrev pub mapping : ℕ → Fields → Parser Fields
  mapping = parse_mapping float quoted is_inherited

  abbrev pub sequence : ℕ → Items → Parser Items
  sequence = parse_sequence float quoted is_inherited

  abbrev pub value_at : ℕ → ℕ → Line → Json → List Line → Outcome (Json × List Line)
  value_at f column line v left =
      value_of float quoted is_inherited (mapping f end) (sequence f nil) column line
        (scalar_text v) left

  -- The loops stop at a row left of their column.
  pub mapping_stops :
      (f : ℕ) (fields : Fields) (column n : ℕ) (rest : List Row)
      → Below column rest
      → mapping (suc f) fields column (numbered n rest) ≡ done (fields, numbered n rest)
  unfolding parse_mapping mapping_step
  mapping_stops f fields column n [] h = refl
  mapping_stops f fields column n ((c, text) ∷ rest) h = ground arith

  pub sequence_stops :
      (f : ℕ) (items : Items) (column n : ℕ) (rest : List Row)
      → Below column rest
      → sequence (suc f) items column (numbered n rest) ≡ done (items, numbered n rest)
  unfolding parse_sequence sequence_step
  sequence_stops f items column n [] h = refl
  sequence_stops f items column n ((c, text) ∷ rest) h = ground arith

  -- A round of the mapping's loop at a printed field.
  pub mapping_field :
      (f : ℕ) (gs : Fields) (column n : ℕ) (k : String) (v : Json) (rows tail : List Row)
      → k ≢ ""
      → is_taken is_inherited k gs ≡ false
      → (value : ReadsTo
          (value_at f column (line_at n column (field_text k v)) v (numbered (suc n) rows))
          v
          tail)
      → mapping (suc f) gs column (numbered n ((column, field_text k v) ∷ rows))
        ≡ mapping f (append_field gs k v) column (numbered value.0 tail)
  unfolding parse_mapping mapping_step
  mapping_field f gs column n k v rows tail ne free (m, value) =
      rw (==-self column, item_of-field_text k v, split_key-field_text quoted k v n ne, free, value)

  pub value_of_scalar :
      (f column n : ℕ) (v : Json) (line : Line) (tail : List Row)
      → IsScalar v
      → value_at f column line v (numbered n tail) ≡ done (v, numbered n tail)
  value_of_scalar f column n v line tail s =
      rw (scalar_text-ne v s, scalar-scalar_text float v line.number s)

  parse_child-array :
      (f column n j : ℕ) (text : String) (rows tail : List Row) (items : Items)
      → column < j
      → is_some (item_of text) ≡ true
      → (block : ReadsTo (sequence f nil j (numbered n ((j, text) ∷ rows))) items tail)
      → parse_child (mapping f end) (sequence f nil) column (numbered n ((j, text) ∷ rows))
        ≡ done (arr items, numbered block.0 tail)
  parse_child-array f column n j text rows tail items lt is_item (m, block) =
      rw (leb-right lt, is_item, block)

  parse_child-object :
      (f column n j : ℕ) (text : String) (rows tail : List Row) (fields : Fields)
      → column < j
      → item_of text ≡ none
      → (block : ReadsTo (mapping f end j (numbered n ((j, text) ∷ rows))) fields tail)
      → parse_child (mapping f end) (sequence f nil) column (numbered n ((j, text) ∷ rows))
        ≡ done (obj fields, numbered block.0 tail)
  parse_child-object f column n j text rows tail fields lt no_item (m, block) =
      rw (leb-right lt, no_item, block)

  -- A round of the sequence's loop at a printed item of each kind.
  pub item_scalar :
      (f : ℕ) (ws : Items) (column n : ℕ) (v : Json) (tail : List Row)
      → IsScalar v
      → sequence (suc f) ws column (numbered n ((column, dashed (scalar_text v)) ∷ tail))
        ≡ sequence f (append_item ws v) column (numbered (suc n) tail)
  unfolding parse_sequence sequence_step
  item_scalar f ws column n v tail s = rw (
    ==-self column,
    trim-scalar_text v,
    scalar_text-ne v s,
    has_key-scalar_text quoted v,
    scalar-scalar_text float v n s,
  )

  pub item_array :
      (f : ℕ) (ws : Items) (column n : ℕ) (v : Json) (rows tail : List Row)
      → (child : ReadsTo
          (parse_child (mapping f end) (sequence f nil) column (numbered (suc n) rows))
          v
          tail)
      → sequence (suc f) ws column (numbered n ((column, "-") ∷ rows))
        ≡ sequence f (append_item ws v) column (numbered child.0 tail)
  unfolding parse_sequence sequence_step
  item_array f ws column n v rows tail (m, child) = rw (==-self column, child)

  item_object :
      (f : ℕ) (ws : Items) (column n : ℕ) (k : String) (v : Json) (rows tail : List Row)
      (fields : Fields)
      → k ≢ ""
      → (block : ReadsTo
          (mapping f end (column + 2) (numbered n ((column + 2, field_text k v) ∷ rows)))
          fields
          tail)
      → sequence (suc f) ws column (numbered n ((column, dashed (field_text k v)) ∷ rows))
        ≡ sequence f (append_item ws (obj fields)) column (numbered block.0 tail)
  unfolding parse_sequence sequence_step
  item_object f ws column n k v rows tail fields ne (m, block) = rw (
    ==-self column,
    trim-field_text k v,
    field_text-ne k v,
    has_key-field_text quoted k v ne,
    block,
  )

  array_rows :
      (f column n j : ℕ) (items : Items) (lines rows tail : List Row) (text : String)
      → column < j
      → lines ≡ (j, text) ∷ rows
      → is_some (item_of text) ≡ true
      → ReadsTo (sequence f nil j (numbered n lines)) items tail
      → ReadsTo
          (parse_child (mapping f end) (sequence f nil) column (numbered n lines))
          (arr items)
          tail
  array_rows f column n j items lines rows tail text lt e is_item (m, block) =
      (m, rw e (parse_child-array f column n j text rows tail items lt is_item (m, rw e at block)))

  pub array_block :
      (items : Items) (f column n : ℕ) (tail : List Row)
      → items ≢ nil
      → AreWritable items
      → ReadsTo
          (sequence f nil (column + 2) (numbered n (items_onto (column + 2) items tail)))
          items
          tail
      → ReadsTo
          (parse_child
            (mapping f end)
            (sequence f nil)
            column
            (numbered n (items_onto (column + 2) items tail)))
          (arr items)
          tail
  unfolding items_onto IsWritable
  array_block nil f column n tail ne w block = absurd (ne refl)
  array_block (cons v vs) f column n tail ne w block =
      let (text, rows, e, is_item) =
        first_of_item v (column + 2) (items_onto (column + 2) vs tail) w.0 in
      array_rows f column n (column + 2) (cons v vs)
        (item_onto (column + 2) v (items_onto (column + 2) vs tail)) rows tail text (omega arith) e
        is_item block

  pub object_block :
      (fields : Fields) (f column n : ℕ) (tail : List Row)
      → fields ≢ end
      → ReadsTo
          (mapping f end (column + 2) (numbered n (fields_onto (column + 2) fields tail)))
          fields
          tail
      → ReadsTo
          (parse_child
            (mapping f end)
            (sequence f nil)
            column
            (numbered n (fields_onto (column + 2) fields tail)))
          (obj fields)
          tail
  unfolding fields_onto
  object_block end f column n tail ne block = absurd (ne refl)
  object_block (field k v fs) f column n tail ne block = (
    block.0,
    parse_child-object f column n (column + 2) (field_text k v)
        (block_onto (column + 2 + 2) v (fields_onto (column + 2) fs tail)) tail (field k v fs)
        (omega arith) (item_of-field_text k v) block,
  )

  pub object_item :
      (fields : Fields) (f : ℕ) (ws : Items) (column n : ℕ) (tail : List Row)
      → fields ≢ end
      → IsMapping is_inherited fields
      → (block : ReadsTo
          (mapping f end (column + 2) (numbered n (fields_onto (column + 2) fields tail)))
          fields
          tail)
      → sequence (suc f) ws column (numbered n (item_onto column (obj fields) tail))
        ≡ sequence f (append_item ws (obj fields)) column (numbered block.0 tail)
  unfolding fields_onto IsMapping
  object_item end f ws column n tail ne h block = absurd (ne refl)
  object_item (field k v fs) f ws column n tail ne h block =
      item_object f ws column n k v
        (block_onto (column + 2 + 2) v (fields_onto (column + 2) fs tail)) tail (field k v fs) h.0
        block
