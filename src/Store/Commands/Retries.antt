-- ===== src/Store/Commands/Retries.antt =====
-- Repeating a request: the idempotency key of a command, and a second acknowledgement.
use relaydot.Prelude.{
  ℕ, ◌≡◌, refl, ap, first-holds, String, Bool, false, Option, none, some, List, [], ◌∷◌, ◌++◌,
  arith, ◌=ˢ◌, eq_iff, any, first, update, Bool-cases, Option-cases, inl, inr, ok, result, after,
  first-append, first-update,
}
use relaydot.Json.{Json}
use relaydot.Store.Schema.{CommandRow, Db, Draw, audit}
use relaydot.Store.Commands.{
  Command, CommandInput, AckInput, is_command, keyed, owned, is_final, claim, claim_each, claimable,
  command_row, command_clash, create_command, get_command, claim_commands, acknowledge,
  acknowledge_command,
}
use relaydot.Store.Commands.Delivery.{create_new_lem, Call, create, claims, acknowledges, step, run}

-- `id TEXT PRIMARY KEY`.
abbrev pub UniqueIds : List CommandRow → Type 0
UniqueIds [] = Unit
UniqueIds (r ∷ rows) = (any (is_command r.id) rows ≡ false) × UniqueIds rows

any-update :
    (q p : CommandRow → Bool) (f : CommandRow → CommandRow) (rows : List CommandRow)
    → ((r : CommandRow) → q (f r) ≡ q r)
    → any q (update p f rows) ≡ any q rows
any-update q p f [] k = refl
any-update q p f (r ∷ rows) k = ground (arith, k r, any-update q p f rows k)

update-UniqueIds :
    (p : CommandRow → Bool) (f : CommandRow → CommandRow) (rows : List CommandRow)
    → ((r : CommandRow) → (f r).id ≡ r.id)
    → UniqueIds rows
    → UniqueIds (update p f rows)
update-UniqueIds p f [] k h = tt
update-UniqueIds p f (r ∷ rows) k (h, hs) = (
  ground (arith, k r, any-update (is_command r.id) p f rows (λ x. ap (λ i. i =ˢ r.id) (k x))),
  update-UniqueIds p f rows k hs,
)

claim_each-UniqueIds :
    (now : ℕ) (picked rows : List CommandRow)
    → UniqueIds rows
    → UniqueIds (claim_each now picked rows)
unfolding claim_each
claim_each-UniqueIds now [] rows h = h
claim_each-UniqueIds now (r ∷ picked) rows h =
    claim_each-UniqueIds now picked _
      (update-UniqueIds (is_command r.id) (claim now) rows (λ x. refl) h)

fresh-none :
    (row : CommandRow) (rows : List CommandRow)
    → any (command_clash row) rows ≡ false
    → first (is_command row.id) rows ≡ none
unfolding command_clash
fresh-none row [] h = refl
fresh-none row (r ∷ rows) h = ground (arith, fresh-none row rows)

append-UniqueIds :
    (row : CommandRow) (rows : List CommandRow)
    → any (command_clash row) rows ≡ false
    → UniqueIds rows
    → UniqueIds (rows ++ row ∷ [])
unfolding command_clash
append-UniqueIds row [] fresh h = (refl, tt)
append-UniqueIds row (r ∷ rows) fresh (h, hs) =
    (away rows h, append-UniqueIds row rows (ground arith) hs)
  where
    away :
        (xs : List CommandRow)
        → any (is_command r.id) xs ≡ false
        → any (is_command r.id) (xs ++ row ∷ []) ≡ false
    away [] k = ground (arith, eq_iff r.id row.id, eq_iff row.id r.id)
    away (x ∷ xs) k = ground (arith, away xs)

-- Ids being unique, the row that belongs to the device is the row with the id.
owned-first :
    (id device_id : String) (rows : List CommandRow) (r : CommandRow)
    → UniqueIds rows
    → first (owned id device_id) rows ≡ some r
    → first (is_command id) rows ≡ some r
owned-first id device_id [] r u h = cc
owned-first id device_id (x ∷ rows) r (u, us) h = elim (Bool-cases (x.id =ˢ id)) [
  | inr other ↦ ground (arith, owned-first id device_id rows r us)
  | inl same ↦ elim (Bool-cases (x.device_id =ˢ device_id)) [
    | inl mine ↦ ground arith
    | inr theirs ↦ absurd (ground (arith, missing rows, eq_iff x.id id))
  ]
]
  where
    missing :
        (xs : List CommandRow)
        → any (is_command id) xs ≡ false
        → first (owned id device_id) xs ≡ none
    missing [] k = refl
    missing (y ∷ ys) k = ground (arith, missing ys)

module _ (stringify : Json → String) (parse : String → Option Json) where
  step-UniqueIds :
      (c : Call) (db : Db) → UniqueIds db.commands → UniqueIds (step stringify parse c db).commands
  unfolding step claim_commands acknowledge_command create_command get_command audit
  step-UniqueIds (create d i) db u =
      elim (Bool-cases (any (command_clash (command_row stringify parse d i)) db.commands)) [
        | inl clash ↦ ground (arith, create_new_lem stringify parse d i db)
        | inr fresh ↦ ground (
          arith,
          create_new_lem stringify parse d i db,
          append-UniqueIds (command_row stringify parse d i) db.commands fresh u,
        )
      ]
  step-UniqueIds (claims now device_id limit) db u =
      ground (arith, claim_each-UniqueIds now (claimable device_id limit db.commands) db.commands u)
  step-UniqueIds (acknowledges d i) db u = ground (
    arith,
    update-UniqueIds (owned i.command_id i.device_id) (acknowledge stringify parse d.now i)
        db.commands (λ r. refl) u,
  )

  -- In every database that calls can reach from one with unique command ids, they are unique.
  pub run-UniqueIds :
      (cs : List Call) (db : Db)
      → UniqueIds db.commands
      → UniqueIds (run stringify parse cs db).commands
  unfolding run
  run-UniqueIds [] db u = u
  run-UniqueIds (c ∷ cs) db u = run-UniqueIds cs (step stringify parse c db) (step-UniqueIds c db u)

  acked :
      (d : Draw) (i : AckInput) (db : Db) (r : CommandRow)
      → first (owned i.command_id i.device_id) db.commands ≡ some r
      → first (owned i.command_id i.device_id) (
          update (owned i.command_id i.device_id) (acknowledge stringify parse d.now i) db.commands)
        ≡ some (acknowledge stringify parse d.now i r)
  acked d i db r h = ground (
    arith,
    first-holds (owned i.command_id i.device_id) db.commands r,
    first-update (owned i.command_id i.device_id) (owned i.command_id i.device_id)
        (acknowledge stringify parse d.now i) db.commands (λ x. refl),
  )

  -- The first acknowledgement of a command settles it: when one succeeds, a later one, with any
  -- outcome, returns the same command as the first and changes nothing, provided that command ids
  -- are unique.
  pub acknowledge_command-again :
      (d e : Draw) (i j : AckInput) (db : Db) (c : Command)
      → UniqueIds db.commands
      → result (acknowledge_command stringify parse d i) db ≡ ok c
      → j.command_id ≡ i.command_id
      → j.device_id ≡ i.device_id
      → acknowledge_command stringify parse e j (after (acknowledge_command stringify parse d i) db)
        ≡ (ok c, after (acknowledge_command stringify parse d i) db)
  unfolding acknowledge_command get_command
  acknowledge_command-again d e i j db c u h p q =
      elim (Option-cases (first (owned i.command_id i.device_id) db.commands)) [
        | inl gone ↦ absurd (ground arith)
        | inr (r, found) ↦ elim (Bool-cases (is_final r.status)) [
          | inl over ↦ ground arith
          | inr unsettled ↦ ground (
            arith,
            acked d i db r found,
            owned-first i.command_id i.device_id _ _
                (update-UniqueIds (owned i.command_id i.device_id)
                  (acknowledge stringify parse d.now i) db.commands (λ x. refl) u)
                (acked d i db r found),
          )
        ]
      ]

  -- The idempotency key of a command: when a creation succeeds, repeating it for the same device
  -- and key, whatever else the second request holds, returns the same command and changes nothing.
  pub create_command-again :
      (d e : Draw) (i j : CommandInput) (db : Db) (c : Command)
      → result (create_command stringify parse d i) db ≡ ok c
      → j.device_id ≡ i.device_id
      → j.idempotency_key ≡ i.idempotency_key
      → create_command stringify parse e j (after (create_command stringify parse d i) db)
        ≡ (ok c, after (create_command stringify parse d i) db)
  unfolding create_command get_command audit command_row
  create_command-again d e i j db c h p q =
      elim (Option-cases (first (keyed i.device_id i.idempotency_key) db.commands)) [
        | inr (r, found) ↦ ground arith
        | inl new ↦
            elim (Bool-cases (any (command_clash (command_row stringify parse d i)) db.commands)) [
              | inl clash ↦ absurd (ground (arith, create_new_lem stringify parse d i db))
              | inr fresh ↦ ground (
                arith,
                create_new_lem stringify parse d i db,
                fresh-none (command_row stringify parse d i) db.commands fresh,
                first-append (keyed i.device_id i.idempotency_key) db.commands
                    (command_row stringify parse d i ∷ []),
                first-append (is_command d.id) db.commands (command_row stringify parse d i ∷ []),
                eq_iff d.id d.id,
                eq_iff i.device_id i.device_id,
                eq_iff i.idempotency_key i.idempotency_key,
              )
            ]
      ]
