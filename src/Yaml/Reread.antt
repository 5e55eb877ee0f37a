-- ===== src/Yaml/Reread.antt =====
-- apps/web/src/lib/yaml-lite.ts: the loops read printed blocks back.
use relaydot.Prelude.{ℕ, zero, suc, ◌+◌, ◌<◌, String, Bool, ◌≡◌, ◌∙◌, List, arith}
use relaydot.Json.{
  Number, Json, null, bool, num, str, arr, obj, Items, nil, cons, Fields, end, field,
}
use relaydot.Yaml.Lines.{Line}
use relaydot.Yaml.Blocks.{append_field, append_item}
use relaydot.Yaml.Printer.{
  Row, block_onto, items_onto, item_onto, fields_onto, field_text, scalar_text, IsWritable,
  AreWritable, HoldsWritable,
}
use relaydot.Yaml.Keys.{IsKeyed, AreKeyed, IsMapping}
use relaydot.Yaml.Rows.{
  numbered, rows_size, Below, concat_fields, concat_items, concat_fields-end, concat_items-nil,
  concat_fields-append_field, concat_items-append_item, is_taken-fresh, fields_onto-Below,
  items_onto-Below, block_onto-grows, line_at,
}
use relaydot.Yaml.Replay.{
  ReadsTo, object_item-size, item_onto-strict, mapping, sequence, value_at, mapping_stops,
  sequence_stops, mapping_field, value_of_scalar, item_scalar, item_array, array_block,
  object_block, object_item,
}

module _ (float : String → Number) (quoted : String → String) (is_inherited : String → Bool) where
  mutual
    unfolding block_onto scalar_text IsWritable IsKeyed concat_fields concat_items

    block_reads :
        (v : Json) (f column n : ℕ) (line : Line) (tail : List Row)
        → IsWritable v
        → IsKeyed is_inherited v
        → rows_size (block_onto (column + 2) v tail) < f
        → Below (column + 2) tail
        → ReadsTo
            (value_at float quoted is_inherited f column line v
              (numbered n (block_onto (column + 2) v tail)))
            v
            tail
    block_reads (arr items) f column n line tail w k size below =
        array_block float quoted is_inherited items f column n tail w.0 w.1
          (sequence_reads items f nil (column + 2) n tail w.1 k size below)
    block_reads (obj fields) f column n line tail w k size below =
        object_block float quoted is_inherited fields f column n tail w.0
          (mapping_reads fields f end (column + 2) n tail w.1 k size below)
    block_reads null f column n line tail w k size below =
        (n, value_of_scalar float quoted is_inherited f column n null line tail tt)
    block_reads (bool b) f column n line tail w k size below =
        (n, value_of_scalar float quoted is_inherited f column n (bool b) line tail tt)
    block_reads (str s) f column n line tail w k size below =
        (n, value_of_scalar float quoted is_inherited f column n (str s) line tail tt)
    block_reads (num s) f column n line tail w k size below = absurd w

    item_reads :
        (v : Json) (f : ℕ) (ws : Items) (column n : ℕ) (tail : List Row)
        → IsWritable v
        → IsKeyed is_inherited v
        → rows_size (item_onto column v tail) < suc f
        → Below (column + 2) tail
        → (m : ℕ) × (sequence float quoted is_inherited
              (suc f)
              ws
              column
              (numbered n (item_onto column v tail))
            ≡ sequence float quoted is_inherited f (append_item ws v) column (numbered m tail))
    item_reads (arr items) f ws column n tail w k size below =
        let child =
          array_block float quoted is_inherited items f column (suc n) tail w.0 w.1
            (sequence_reads items f nil (column + 2) (suc n) tail w.1 k (omega arith) below) in
        (
          child.0,
          item_array float quoted is_inherited f ws column n (arr items)
              (items_onto (column + 2) items tail) tail child,
        )
    item_reads (obj fields) f ws column n tail w k size below =
        let block =
          mapping_reads fields f end (column + 2) n tail w.1 k
            (omega (arith, object_item-size fields column tail w.0)) below in
        (block.0, object_item float quoted is_inherited fields f ws column n tail w.0 k block)
    item_reads null f ws column n tail w k size below =
        (suc n, item_scalar float quoted is_inherited f ws column n null tail tt)
    item_reads (bool b) f ws column n tail w k size below =
        (suc n, item_scalar float quoted is_inherited f ws column n (bool b) tail tt)
    item_reads (str s) f ws column n tail w k size below =
        (suc n, item_scalar float quoted is_inherited f ws column n (str s) tail tt)
    item_reads (num x) f ws column n tail w k size below = absurd w

    pub sequence_reads :
        (vs : Items) (f : ℕ) (ws : Items) (column n : ℕ) (rest : List Row)
        → AreWritable vs
        → AreKeyed is_inherited vs
        → rows_size (items_onto column vs rest) < f
        → Below column rest
        → ReadsTo
            (sequence float quoted is_inherited f ws column
              (numbered n (items_onto column vs rest)))
            (concat_items ws vs)
            rest
    sequence_reads nil zero ws column n rest w k size below = absurd (omega arith)
    sequence_reads nil (suc f) ws column n rest w k size below = (
      n,
      rw (concat_items-nil ws) (sequence_stops float quoted is_inherited f ws column n rest below),
    )
    sequence_reads (cons v vs) zero ws column n rest w k size below = absurd (omega arith)
    sequence_reads (cons v vs) (suc f) ws column n rest w k size below =
        let (m, step) =
          item_reads v f ws column n (items_onto column vs rest) w.0 k.0 size
            (items_onto-Below vs column rest below) in
        let (m', more) =
          sequence_reads vs f (append_item ws v) column m rest w.1 k.1
            (omega (arith, item_onto-strict v column (items_onto column vs rest) w.0)) below in
        (m', step ∙ (rw concat_items-append_item at more))

    pub mapping_reads :
        (fs : Fields) (f : ℕ) (gs : Fields) (column n : ℕ) (rest : List Row)
        → HoldsWritable fs
        → IsMapping is_inherited (concat_fields gs fs)
        → rows_size (fields_onto column fs rest) < f
        → Below column rest
        → ReadsTo
            (mapping float quoted is_inherited f gs column
              (numbered n (fields_onto column fs rest)))
            (concat_fields gs fs)
            rest
    mapping_reads end zero gs column n rest w k size below = absurd (omega arith)
    mapping_reads end (suc f) gs column n rest w k size below = (
      n,
      rw (concat_fields-end gs) (mapping_stops float quoted is_inherited f gs column n rest below),
    )
    mapping_reads (field key v fs) zero gs column n rest w k size below = absurd (omega arith)
    mapping_reads (field key v fs) (suc f) gs column n rest w k size below =
        let (ne, free, own) = is_taken-fresh is_inherited gs key v fs k in
        let value =
          block_reads v f column (suc n) (line_at n column (field_text key v))
            (fields_onto column fs rest) w.0 own (omega arith)
            (fields_onto-Below fs column rest below) in
        let (m', more) =
          mapping_reads fs f (append_field gs key v) column value.0 rest w.1
            (rw (concat_fields-append_field gs key v fs) k)
            (omega (arith, block_onto-grows v (column + 2) (fields_onto column fs rest))) below in
        (
          m',
          mapping_field float quoted is_inherited f gs column n key v
                (block_onto (column + 2) v (fields_onto column fs rest))
                (fields_onto column fs rest) ne free value
              ∙ (rw concat_fields-append_field at more),
        )
