-- ===== src/Worker/Convergence.antt =====
-- The schedules after a start are the declared ones.
use relaydot.Prelude.{
  String, Bool, true, false, not, ◌&&◌, ◌||◌, Option, none, some, is_some, List, [], ◌∷◌, ◌++◌, any,
  ◌=ˢ◌, if◌then◌else◌, starts_with, ◌≡◌, refl, sym, ap, ◌∙◌, subst, eq_iff, arith, Bool-cases, inl,
  inr, str_eq_refl,
}
use relaydot.Worker.Schedules.{
  ScheduleSpec, Call, add, update, remove, is_named, declares, expression_of, call_for, declare,
  names_of, withdraw, register_schedules,
}

-- The expression that is declared for a name.
abbrev pub declared : String → List ScheduleSpec → Option String
declared n [] = none
declared n (spec ∷ specs) =
    let rest = declared n specs in if spec.name =ˢ n then some spec.expression else rest

-- What the entry of a name is to become: the declared one, none for a name of the program's that is
-- not declared, and otherwise what it was.
abbrev pub wanted : String → List ScheduleSpec → Option String → Option String
wanted n specs before = elim (declared n specs) [
  | some expression ↦ some expression
  | none ↦ if starts_with n "relaydot." then none else before
]

abbrev or_before : Option String → Option String → Option String
or_before (some e) before = some e
or_before none before = before

-- No two specs have one name.
abbrev pub AreDistinct : List ScheduleSpec → Type 0
AreDistinct [] = Unit {0}
AreDistinct (spec ∷ specs) = (any (declares spec.name) specs ≡ false) × AreDistinct specs

any-declares :
    (n : String) (specs : List ScheduleSpec) → any (declares n) specs ≡ is_some (declared n specs)
any-declares n [] = refl
any-declares n (spec ∷ specs) = ground (arith, any-declares n specs)

withdrawn_now :
    (later now withdrawn : Bool) (o : Option String)
    → (now ≡ true → withdrawn ≡ true)
    → (if later && withdrawn then none else if now then none else o)
      ≡ (if (now || later) && withdrawn then none else o)
withdrawn_now later now withdrawn o h = ground arith

kept_now :
    (later now withdrawn : Bool) (o : Option String)
    → (now ≡ true → withdrawn ≡ false)
    → (if later && withdrawn then none else o) ≡ (if (now || later) && withdrawn then none else o)
kept_now later now withdrawn o h = ground arith

settled :
    (d : Option String) (own : Bool) (o : Option String)
    → (if is_some o && (own && not (is_some d)) then none else or_before d o)
      ≡ elim d [ some e ↦ some e | none ↦ if own then none else o ]
settled (some e) true none = refl
settled (some e) true (some x) = refl
settled (some e) false none = refl
settled (some e) false (some x) = refl
settled none true none = refl
settled none true (some x) = refl
settled none false none = refl
settled none false (some x) = refl

any-is_named :
    (n : String) (entries : List (String × String))
    → any (is_named n) entries ≡ is_some (expression_of n entries)
any-is_named n [] = refl
any-is_named n (entry ∷ entries) = ground (arith, any-is_named n entries)

any-names_of :
    (n : String) (entries : List (String × String))
    → any (λ m. m =ˢ n) (names_of entries) ≡ is_some (expression_of n entries)
unfolding names_of
any-names_of n [] = refl
any-names_of n ((key, expression) ∷ entries) =
    ground (
      arith,
      any-names_of n entries,
      any-is_named n entries,
      any-is_named key entries,
      eq_iff key n,
    )

module _ {S : Type 0} (lookup : S → String → Option String) (apply : Call → S → S)
    (apply-add : (spec : ScheduleSpec) (st : S) (n : String)
      → lookup (apply (add spec) st) n
        ≡ (if spec.name =ˢ n then some spec.expression else lookup st n))
    (apply-update : (spec : ScheduleSpec) (st : S) (expression : String)
      → lookup st spec.name ≡ some expression
      → lookup (apply (update spec) st) spec.name ≡ some spec.expression)
    (apply-update_other : (spec : ScheduleSpec) (st : S) (n : String)
      → (spec.name =ˢ n) ≡ false
      → lookup (apply (update spec) st) n ≡ lookup st n)
    (apply-remove : (name : String) (st : S) (n : String)
      → lookup (apply (remove name) st) n ≡ (if name =ˢ n then none else lookup st n)) where
  abbrev pub run : List Call → S → S
  run [] st = st
  run (c ∷ cs) st = run cs (apply c st)

  run-append : (cs ds : List Call) (st : S) → run (cs ++ ds) st ≡ run ds (run cs st)
  run-append [] ds st = refl
  run-append (c ∷ cs) ds st = run-append cs ds (apply c st)

  call_for-other :
      (spec : ScheduleSpec) (o : Option String) (st : S) (n : String)
      → (spec.name =ˢ n) ≡ false
      → lookup (run (call_for spec o) st) n ≡ lookup st n
  call_for-other spec none st n h = apply-add spec st n ∙ rw h
  call_for-other spec (some e) st n h = elim (Bool-cases (e =ˢ spec.expression)) [
    | inl k ↦ rw k
    | inr k ↦ rw k (apply-update_other spec st n h)
  ]

  call_for-own :
      (spec : ScheduleSpec) (o : Option String) (st : S)
      → lookup st spec.name ≡ o
      → lookup (run (call_for spec o) st) spec.name ≡ some spec.expression
  call_for-own spec none st h = apply-add spec st spec.name ∙ rw (str_eq_refl spec.name)
  call_for-own spec (some e) st h = elim (Bool-cases (e =ˢ spec.expression)) [
    | inl k ↦ rw k (h ∙ ap some ((eq_iff e spec.expression).0 k))
    | inr k ↦ rw k (apply-update spec st e h)
  ]

  declare-other :
      (existing : List (String × String)) (specs : List ScheduleSpec) (st : S) (n : String)
      → any (declares n) specs ≡ false
      → lookup (run (declare existing specs) st) n ≡ lookup st n
  unfolding declare
  declare-other existing [] st n h = refl
  declare-other existing (spec ∷ specs) st n h =
      ap (λ s. lookup s n) (run-append (call_for spec _) (declare existing specs) st)
      ∙ declare-other existing specs _ n (ground (arith, h))
      ∙ call_for-other spec _ st n (ground (arith, h))

  declare-lookup :
      (existing : List (String × String)) (specs : List ScheduleSpec) (st : S) (n : String)
      → AreDistinct specs
      → lookup st n ≡ expression_of n existing
      → lookup (run (declare existing specs) st) n ≡ or_before (declared n specs) (lookup st n)
  unfolding declare
  declare-lookup existing [] st n distinct h = refl
  declare-lookup existing (spec ∷ specs) st n distinct h = elim (Bool-cases (spec.name =ˢ n)) [
    | inl k ↦
        let same : spec.name ≡ n = (eq_iff spec.name n).0 k in
        ap (λ s. lookup s n) (run-append (call_for spec _) (declare existing specs) st)
        ∙ declare-other existing specs _ n
            (subst (λ m. any (declares m) specs ≡ false) same distinct.0)
        ∙ subst
            (λ m.
              lookup (run (call_for spec (expression_of spec.name existing)) st) m
              ≡ some spec.expression)
            same
            (call_for-own spec _ st
              (subst (λ m. lookup st m ≡ expression_of m existing) (sym same) h))
        ∙ rw k
    | inr k ↦
        ap (λ s. lookup s n) (run-append (call_for spec _) (declare existing specs) st)
        ∙ declare-lookup existing specs _ n distinct.1 (call_for-other spec _ st n k ∙ h)
        ∙ rw (k, call_for-other spec _ st n k)
  ]

  abbrev is_withdrawn : List ScheduleSpec → String → Bool
  is_withdrawn specs n = starts_with n "relaydot." && not (any (declares n) specs)

  withdraw-lookup :
      (specs : List ScheduleSpec) (names : List String) (st : S) (n : String)
      → lookup (run (withdraw specs names) st) n
        ≡ (if any (λ m. m =ˢ n) names && is_withdrawn specs n then none else lookup st n)
  unfolding withdraw
  withdraw-lookup specs [] st n = refl
  withdraw-lookup specs (name ∷ names) st n = elim (Bool-cases (is_withdrawn specs name)) [
    | inl k ↦ rw k (
        withdraw-lookup specs names (apply (remove name) st) n
        ∙ ap (λ o. if any (λ m. m =ˢ n) names && is_withdrawn specs n then none else o)
            (apply-remove name st n)
        ∙ withdrawn_now (any (λ m. m =ˢ n) names) (name =ˢ n) (is_withdrawn specs n) _
            (λ e. ap (is_withdrawn specs) (sym ((eq_iff name n).0 e)) ∙ k))
    | inr k ↦ rw k (
        withdraw-lookup specs names st n
        ∙ kept_now (any (λ m. m =ˢ n) names) (name =ˢ n) (is_withdrawn specs n) _
            (λ e. ap (is_withdrawn specs) (sym ((eq_iff name n).0 e)) ∙ k))
  ]

  -- After the calls of a start, the scheduler holds for each name what is wanted of it: the declared
  -- expression, nothing for a name of the program's that is not declared, and for any other name what
  -- was there. The declared names are distinct, the scheduler's list says what it holds, and its
  -- calls set, change and remove the entry of their name alone, a change where it has one.
  pub register_schedules-wanted :
      (existing : List (String × String)) (specs : List ScheduleSpec) (st : S)
      → AreDistinct specs
      → ((n : String) → lookup st n ≡ expression_of n existing)
      → (n : String)
      → lookup (run (register_schedules existing specs) st) n ≡ wanted n specs (lookup st n)
  unfolding register_schedules
  register_schedules-wanted existing specs st distinct lists n =
      ap (λ s. lookup s n) (run-append (declare existing specs) _ st)
      ∙ withdraw-lookup specs (names_of existing) _ n
      ∙ rw
          (
            any-names_of n existing,
            sym (lists n),
            any-declares n specs,
            declare-lookup existing specs st n distinct (lists n),
          )
          (settled (declared n specs) (starts_with n "relaydot.") (lookup st n))
