-- ===== src/Store/Commands/Claims.antt =====
-- What one call of `claimCommands` hands out.
use relaydot.Prelude.{
  Result-cases, ap, subst, sym, ◌∙◌, ℕ, suc, ◌≤◌, ◌≡◌, refl, String, true, Option, some, List, [],
  ◌∷◌, map, arith, eq_iff, length, order_by, insert_by, All, All-take, select-All, length-take-le,
  inl, inr, ok, result,
}
use relaydot.Json.{Json}
use relaydot.Store.Schema.{CommandRow, claimed, Db}
use relaydot.Store.Commands.{
  Command, waits_for, created_before, claim, claimable, decode_command, decode_all, claim_commands,
}

module _ {κ} (P : CommandRow → Type κ) where
  All-insert_by :
      (x : CommandRow) (ys : List CommandRow)
      → P x
      → All P ys
      → All P (insert_by created_before x ys)
  All-insert_by x [] p h = (p, tt)
  All-insert_by x (y ∷ ys) p h = ground (arith, All-insert_by x ys p h.1)

  All-order_by : (xs : List CommandRow) → All P xs → All P (order_by created_before xs)
  All-order_by [] h = tt
  All-order_by (x ∷ xs) h = All-insert_by x (order_by created_before xs) h.0 (All-order_by xs h.1)

pub claimable-waits :
    (device_id : String) (limit : ℕ) (rows : List CommandRow)
    → All (λ r. waits_for device_id r ≡ true) (claimable device_id limit rows)
unfolding claimable
claimable-waits device_id limit rows =
    All-take _ limit _ (All-order_by _ _ (select-All (waits_for device_id) rows))

pub length-claimable :
    (device_id : String) (limit : ℕ) (rows : List CommandRow)
    → length (claimable device_id limit rows) ≤ limit
unfolding claimable
length-claimable device_id limit rows = length-take-le limit _

-- What is rightly handed out at `now` to a device.
pub record IsHandedOut (device_id : String) (now : ℕ) (c : Command) : Type 0 where
  pub addressee : c.device_id ≡ device_id
  pub status : c.status ≡ claimed
  pub claimed_at : c.claimed_at ≡ some now

module _ (stringify : Json → String) (parse : String → Option Json) where
  decode_command-IsHandedOut :
      (device_id : String) (now : ℕ) (r : CommandRow) (c : Command)
      → waits_for device_id r ≡ true
      → decode_command stringify parse (claim now r) ≡ ok c
      → IsHandedOut device_id now c
  unfolding decode_command
  decode_command-IsHandedOut device_id now r c w h = ground (arith, eq_iff r.device_id device_id)

  decode_all-IsHandedOut :
      (device_id : String) (now : ℕ) (rows : List CommandRow) (cs : List Command)
      → All (λ r. waits_for device_id r ≡ true) rows
      → decode_all stringify parse (map (claim now) rows) ≡ ok cs
      → All (IsHandedOut device_id now) cs × (length cs ≡ length rows)
  unfolding decode_all
  decode_all-IsHandedOut device_id now [] [] w h = (tt, refl)
  decode_all-IsHandedOut device_id now [] (c ∷ cs) w h = cc
  decode_all-IsHandedOut device_id now (r ∷ rows) cs w h =
      elim (Result-cases (decode_command stringify parse (claim now r))) [
        | inr (e, p) ↦ absurd (ground arith)
        | inl (c, p) ↦ elim (Result-cases (decode_all stringify parse (map (claim now) rows))) [
          | inr (e, q) ↦ absurd (ground arith)
          | inl (ds, q) ↦
              let same : c ∷ ds ≡ cs = ground arith in
              let head = decode_command-IsHandedOut device_id now r c w.0 p in
              let (tail, count) = decode_all-IsHandedOut device_id now rows ds w.1 q in
              subst (λ xs. All (IsHandedOut device_id now) xs × (length xs ≡ length (r ∷ rows)))
                same ((head, tail), ap suc count)
        ]
      ]

  pub claimed-decoded :
      (now : ℕ) (device_id : String) (limit : ℕ) (db : Db)
      → result (claim_commands stringify parse now device_id limit) db
        ≡ decode_all stringify parse (map (claim now) (claimable device_id limit db.commands))
  unfolding claim_commands
  claimed-decoded now device_id limit db = ground (
    arith,
    Result-cases
        (decode_all stringify parse (map (claim now) (claimable device_id limit db.commands))),
  )

  -- A claim returns at most `limit` commands, each addressed to the device that claims and now
  -- marked as claimed, at the time of the call.
  pub claim_commands-IsHandedOut :
      (now : ℕ) (device_id : String) (limit : ℕ) (db : Db) (cs : List Command)
      → result (claim_commands stringify parse now device_id limit) db ≡ ok cs
      → All (IsHandedOut device_id now) cs × (length cs ≤ limit)
  claim_commands-IsHandedOut now device_id limit db cs h =
      let (out, count) =
        decode_all-IsHandedOut device_id now (claimable device_id limit db.commands) cs
          (claimable-waits device_id limit db.commands)
          (sym (claimed-decoded now device_id limit db) ∙ h) in
      (out, omega (arith, count, length-claimable device_id limit db.commands))
