-- ===== src/Store/Commands/Delivery.antt =====
-- A command is handed out at most once, whatever devices and operators do afterwards.
use relaydot.Prelude.{
  subst, ℕ, zero, suc, ◌≡◌, refl, String, Bool, true, false, ◌&&◌, ◌||◌, Option, List, [], ◌∷◌,
  ◌++◌, map, arith, ◌=ˢ◌, eq_iff, if◌then◌else◌, any, select, update, take, order_by, insert_by,
  Bool-cases, Result-cases, inl, inr, ok, err, constraint, result, after, sym, ◌∙◌,
}
use relaydot.Json.{Json}
use relaydot.Store.Schema.{CommandRow, Db, Draw, audit, insert_into-cases}
use relaydot.Store.Commands.{
  Command, CommandInput, AckInput, is_command, is_pending, waits_for, owned, created_before, claim,
  claimable, claim_each, decode_command, decode_all, command_row, command_clash, create_command,
  claim_commands, acknowledge, acknowledge_command, get_command, create_new, announce,
}
use relaydot.Store.Commands.Claims.{claimed-decoded}

abbrev is_waiting : String → CommandRow → Bool
is_waiting id r = r.id =ˢ id && is_pending r.status

-- A command with this id is there, and none with it is pending.
abbrev pub Out : String → List CommandRow → Type 0
Out id rows = (any (is_command id) rows ≡ true) × (any (is_waiting id) rows ≡ false)

-- An update that keeps ids and makes nothing pending.
update-Out :
    (id : String) (p : CommandRow → Bool) (f : CommandRow → CommandRow) (rows : List CommandRow)
    → ((r : CommandRow) → is_command id (f r) ≡ is_command id r)
    → ((r : CommandRow) → is_waiting id r ≡ false → is_waiting id (f r) ≡ false)
    → Out id rows
    → Out id (update p f rows)
update-Out id p f rows keep done (there, still) = (found rows there, quiet rows still)
  where
    found :
        (rs : List CommandRow)
        → any (is_command id) rs ≡ true
        → any (is_command id) (update p f rs) ≡ true
    found [] h = h
    found (r ∷ rs) h = ground (arith, keep r, found rs)

    quiet :
        (rs : List CommandRow)
        → any (is_waiting id) rs ≡ false
        → any (is_waiting id) (update p f rs) ≡ false
    quiet [] h = h
    quiet (r ∷ rs) h = ground (arith, done r, quiet rs)

claim_each-Out :
    (id : String) (now : ℕ) (picked rows : List CommandRow)
    → Out id rows
    → Out id (claim_each now picked rows)
unfolding claim_each
claim_each-Out id now [] rows h = h
claim_each-Out id now (r ∷ picked) rows h =
    claim_each-Out id now picked _
      (update-Out id (is_command r.id) (claim now) rows (λ x. refl) (λ x q. ground arith) h)

distinct :
    (id : String) (row : CommandRow) (rows : List CommandRow)
    → any (is_command id) rows ≡ true
    → any (command_clash row) rows ≡ false
    → is_command id row ≡ false
unfolding command_clash
distinct id row [] there fresh = cc
distinct id row (r ∷ rows) there fresh =
    ground (arith, distinct id row rows, eq_iff r.id id, eq_iff r.id row.id, eq_iff row.id id)

any-append :
    (q : CommandRow → Bool) (rows : List CommandRow) (row : CommandRow)
    → any q (rows ++ row ∷ []) ≡ (any q rows || q row)
any-append q [] row = ground arith
any-append q (r ∷ rows) row = ground (arith, any-append q rows row)

append-Out :
    (id : String) (row : CommandRow) (rows : List CommandRow)
    → any (command_clash row) rows ≡ false
    → Out id rows
    → Out id (rows ++ row ∷ [])
append-Out id row rows fresh (there, still) = (
  ground (arith, any-append (is_command id) rows row),
  ground (arith, any-append (is_waiting id) rows row, distinct id row rows there fresh),
)

-- What a claim picks, it marks: each id is out afterwards.
marked :
    (id : String) (now : ℕ) (rows : List CommandRow)
    → any (is_command id) rows ≡ true
    → Out id (update (is_command id) (claim now) rows)
marked id now [] there = cc
marked id now (r ∷ rows) there = (found (r ∷ rows) there, quiet (r ∷ rows))
  where
    found :
        (rs : List CommandRow)
        → any (is_command id) rs ≡ true
        → any (is_command id) (update (is_command id) (claim now) rs) ≡ true
    found [] h = h
    found (x ∷ rs) h = ground (arith, found rs)

    quiet :
        (rs : List CommandRow) → any (is_waiting id) (update (is_command id) (claim now) rs) ≡ false
    quiet [] = refl
    quiet (x ∷ rs) = ground (arith, quiet rs)

abbrev pub There : List CommandRow → CommandRow → Type 0
There rows r = any (is_command r.id) rows ≡ true

claim_each-There :
    (id : String) (now : ℕ) (picked rows : List CommandRow)
    → any (is_command id) rows ≡ true
    → any (is_command id) picked ≡ true
    → Out id (claim_each now picked rows)
unfolding claim_each
claim_each-There id now [] rows there h = cc
claim_each-There id now (r ∷ picked) rows there h = elim (Bool-cases (r.id =ˢ id)) [
  | inl same ↦ claim_each-Out id now picked _ (
      subst (λ j. Out id (update (is_command j) (claim now) rows)) (sym ((eq_iff r.id id).0 same))
        (marked id now rows there))
  | inr other ↦ claim_each-There id now picked _ (kept rows there) (ground arith)
]
  where
    kept :
        (rs : List CommandRow)
        → any (is_command id) rs ≡ true
        → any (is_command id) (update (is_command r.id) (claim now) rs) ≡ true
    kept [] k = k
    kept (x ∷ rs) k = ground (arith, kept rs)

-- Sorting and taking find no row that is not in the table.
any-insert_by :
    (q : CommandRow → Bool) (x : CommandRow) (ys : List CommandRow)
    → any q (insert_by created_before x ys) ≡ (q x || any q ys)
any-insert_by q x [] = refl
any-insert_by q x (y ∷ ys) = ground (arith, any-insert_by q x ys)

any-order_by :
    (q : CommandRow → Bool) (xs : List CommandRow) → any q (order_by created_before xs) ≡ any q xs
any-order_by q [] = refl
any-order_by q (x ∷ xs) =
    ground (arith, any-insert_by q x (order_by created_before xs), any-order_by q xs)

any-take :
    (q : CommandRow → Bool) (n : ℕ) (xs : List CommandRow)
    → any q xs ≡ false
    → any q (take n xs) ≡ false
any-take q zero xs h = refl
any-take q (suc n) [] h = refl
any-take q (suc n) (x ∷ xs) h = ground (arith, any-take q n xs)

any-select :
    (id device_id : String) (xs : List CommandRow)
    → any (is_waiting id) xs ≡ false
    → any (is_command id) (select (waits_for device_id) xs) ≡ false
any-select id device_id [] h = refl
any-select id device_id (x ∷ xs) h = ground (arith, any-select id device_id xs)

any-select_there :
    (id device_id : String) (xs : List CommandRow)
    → any (is_command id) xs ≡ false
    → any (is_command id) (select (waits_for device_id) xs) ≡ false
any-select_there id device_id [] h = refl
any-select_there id device_id (x ∷ xs) h = ground (arith, any-select_there id device_id xs)

claimable-quiet :
    (id device_id : String) (limit : ℕ) (rows : List CommandRow)
    → any (is_command id) (select (waits_for device_id) rows) ≡ false
    → any (is_command id) (claimable device_id limit rows) ≡ false
unfolding claimable
claimable-quiet id device_id limit rows h =
    any-take (is_command id) limit _ (any-order_by (is_command id) _ ∙ h)

claimable-There :
    (id device_id : String) (limit : ℕ) (rows : List CommandRow)
    → any (is_command id) (claimable device_id limit rows) ≡ true
    → any (is_command id) rows ≡ true
claimable-There id device_id limit rows h = elim (Bool-cases (any (is_command id) rows)) [
  | inl there ↦ there
  | inr gone ↦
      cc (claimable-quiet id device_id limit rows (any-select_there id device_id rows gone))
]

-- The calls that touch the command table, with what each draws.
pub data Call : Type 0 where
  create : Draw → CommandInput → Call
  claims : ℕ → String → ℕ → Call
  acknowledges : Draw → AckInput → Call

module _ (stringify : Json → String) (parse : String → Option Json) where
  acknowledge_command-Out :
      (d : Draw) (i : AckInput) (id : String) (db : Db)
      → Out id db.commands
      → Out id (after (acknowledge_command stringify parse d i) db).commands
  unfolding acknowledge_command
  acknowledge_command-Out d i id db h = ground (
    arith,
    update-Out id (owned i.command_id i.device_id) (acknowledge stringify parse d.now i) db.commands
        (λ r. refl) (λ r q. ground arith) h,
  )

  pub create_new_lem :
      (d : Draw) (i : CommandInput) (db : Db)
      → create_new stringify parse d i db ≡ (
          if any (command_clash (command_row stringify parse d i)) db.commands
          then (err constraint, db)
          else get_command stringify parse d.id (
              announce stringify parse d i
                (record db { commands = db.commands ++ command_row stringify parse d i ∷ [] })))
  unfolding create_new
  create_new_lem d i db =
      insert_into-cases (λ db. db.commands) (λ db rows. record db { commands = rows })
        (command_clash (command_row stringify parse d i)) (command_row stringify parse d i)
        (announce stringify parse d i) (get_command stringify parse d.id) db

  create_new-Out :
      (d : Draw) (i : CommandInput) (id : String) (db : Db)
      → Out id db.commands
      → Out id (after (create_new stringify parse d i) db).commands
  unfolding get_command audit
  create_new-Out d i id db h =
      elim (Bool-cases (any (command_clash (command_row stringify parse d i)) db.commands)) [
        | inl clash ↦ ground (arith, create_new_lem d i db)
        | inr fresh ↦ ground (
          arith,
          create_new_lem d i db,
          append-Out id (command_row stringify parse d i) db.commands fresh h,
        )
      ]

  create_command-Out :
      (d : Draw) (i : CommandInput) (id : String) (db : Db)
      → Out id db.commands
      → Out id (after (create_command stringify parse d i) db).commands
  unfolding create_command
  create_command-Out d i id db h = ground (arith, create_new-Out d i id db h)

  ids-decode_all :
      (id : String) (now : ℕ) (rows : List CommandRow) (cs : List Command)
      → decode_all stringify parse (map (claim now) rows) ≡ ok cs
      → any (λ c. c.id =ˢ id) cs ≡ any (is_command id) rows
  unfolding decode_all decode_command
  ids-decode_all id now [] [] h = refl
  ids-decode_all id now [] (c ∷ cs) h = cc
  ids-decode_all id now (r ∷ rows) cs h =
      elim (Result-cases (decode_all stringify parse (map (claim now) rows))) [
        | inr (e, q) ↦ absurd (ground arith)
        | inl (ds, q) ↦ ground (arith, ids-decode_all id now rows ds q)
      ]

  pub claim_commands-Out :
      (now : ℕ) (device_id : String) (limit : ℕ) (id : String) (db : Db)
      → Out id db.commands
      → Out id (after (claim_commands stringify parse now device_id limit) db).commands
  unfolding claim_commands
  claim_commands-Out now device_id limit id db h =
      ground (arith, claim_each-Out id now (claimable device_id limit db.commands) db.commands h)

  unfoldable pub step : Call → Db → Db
  unfolding create_command claim_commands acknowledge_command
  step (create d i) db = after (create_command stringify parse d i) db
  step (claims now device_id limit) db =
      after (claim_commands stringify parse now device_id limit) db
  step (acknowledges d i) db = after (acknowledge_command stringify parse d i) db

  unfoldable pub run : List Call → Db → Db
  unfolding step
  run [] db = db
  run (c ∷ cs) db = run cs (step c db)

  step-Out : (c : Call) (id : String) (db : Db) → Out id db.commands → Out id (step c db).commands
  unfolding step
  step-Out (create d i) id db h = create_command-Out d i id db h
  step-Out (claims now device_id limit) id db h = claim_commands-Out now device_id limit id db h
  step-Out (acknowledges d i) id db h = acknowledge_command-Out d i id db h

  run-Out :
      (cs : List Call) (id : String) (db : Db) → Out id db.commands → Out id (run cs db).commands
  unfolding run
  run-Out [] id db h = h
  run-Out (c ∷ cs) id db h = run-Out cs id (step c db) (step-Out c id db h)

  claim_commands-marks :
      (now : ℕ) (device_id : String) (limit : ℕ) (id : String) (db : Db) (cs : List Command)
      → result (claim_commands stringify parse now device_id limit) db ≡ ok cs
      → any (λ c. c.id =ˢ id) cs ≡ true
      → Out id (after (claim_commands stringify parse now device_id limit) db).commands
  unfolding claim_commands
  claim_commands-marks now device_id limit id db cs h there =
      let picked : any (is_command id) (claimable device_id limit db.commands) ≡ true =
        sym (
          ids-decode_all id now (claimable device_id limit db.commands) cs
            (sym (claimed-decoded stringify parse now device_id limit db) ∙ h))
        ∙ there in
      ground (
        arith,
        claim_each-There id now (claimable device_id limit db.commands) db.commands
            (claimable-There id device_id limit db.commands picked) picked,
      )

  -- A command is handed out at most once: when a claim has returned it, then after any calls that
  -- create, claim and acknowledge commands, no claim of any device returns it again.
  pub claim_commands-once :
      (now now' : ℕ) (device_id device_id' : String) (limit limit' : ℕ) (id : String) (db : Db)
      (cs cs' : List Command) (calls : List Call)
      → result (claim_commands stringify parse now device_id limit) db ≡ ok cs
      → any (λ c. c.id =ˢ id) cs ≡ true
      → result
          (claim_commands stringify parse now' device_id' limit')
          (run calls (after (claim_commands stringify parse now device_id limit) db))
        ≡ ok cs'
      → any (λ c. c.id =ˢ id) cs' ≡ false
  claim_commands-once now now' device_id device_id' limit limit' id db cs cs' calls h there h' =
      let later = run calls (after (claim_commands stringify parse now device_id limit) db) in
      let out = run-Out calls id _ (claim_commands-marks now device_id limit id db cs h there) in
      ids-decode_all id now' (claimable device_id' limit' later.commands) cs'
        (sym (claimed-decoded stringify parse now' device_id' limit' later) ∙ h')
      ∙ claimable-quiet id device_id' limit' later.commands
          (any-select id device_id' later.commands out.1)
