-- ===== src/Throttle/Limit.antt =====
-- A blocked key stays blocked until its window is over, however requests interleave.
use relaydot.Prelude.{
  ℕ, ◌+◌, ◌≤◌, ◌<◌, ◌≡◌, refl, String, Bool, true, false, some, List, [], ◌∷◌, arith, ◌=ˢ◌, eq_iff,
  if◌then◌else◌, first, first-update, first-holds, delete, Bool-cases, Option-cases, subst, sym, ap,
  leb→le, ◌∙◌, inl, inr,
}
use relaydot.Throttle.{
  purged, Attempts, Throttle, has_key, has_window, is_past, set_attempts, window_of, login_throttle,
  fail, reset, login_limit,
}

-- What a request does: it asks the throttle, and later fails or succeeds. Other requests come
-- between.
pub data Event : Type 0 where
  asks : ℕ → String → Event
  fails : ℕ → Event
  succeeds : String → Event

pub happen : Event → Throttle → Throttle
unfolding login_throttle fail reset
happen (asks now key) s = (login_throttle now key s).1
happen (fails window) s = fail window s
happen (succeeds key) s = reset key s

pub happen_all : List Event → Throttle → Throttle
unfolding happen
happen_all [] s = s
happen_all (e ∷ es) s = happen_all es (happen e s)

-- Before `until`, and not a success of `key`.
abbrev pub Before : ℕ → String → Event → Type 0
Before until key (asks now other) = now < until
Before until key (fails window) = Unit
Before until key (succeeds other) = (other =ˢ key) ≡ false

abbrev pub AllBefore : ℕ → String → List Event → Type 0
AllBefore until key [] = Unit
AllBefore until key (e ∷ es) = Before until key e × AllBefore until key es

-- The window of the key lasts until then, with the limit reached.
abbrev Held : ℕ → String → Throttle → Type 0
Held until key s =
    (a : Attempts) × (first (has_key key) s.attempts ≡ some a)
    × (a.reset_at ≡ until)
    × (login_limit ≤ a.count)

first-set_attempts :
    (key : String) (w : Attempts) (rows : List Attempts)
    → first (has_key key) (set_attempts w rows)
      ≡ (if has_key key w then some w else first (has_key key) rows)
unfolding set_attempts
first-set_attempts key w [] = refl
first-set_attempts key w (a ∷ rows) =
    ground (arith, first-set_attempts key w rows, eq_iff a.key w.key, eq_iff w.key key)

first-delete :
    (q p : Attempts → Bool) (rows : List Attempts) (a : Attempts)
    → first q rows ≡ some a
    → p a ≡ false
    → first q (delete p rows) ≡ some a
first-delete q p [] a h k = h
first-delete q p (x ∷ rows) a h k = ground (arith, first-delete q p rows a)

purged-keeps :
    (key : String) (now : ℕ) (rows : List Attempts) (a : Attempts)
    → first (has_key key) rows ≡ some a
    → now < a.reset_at
    → first (has_key key) (purged now rows) ≡ some a
purged-keeps key now rows a e h = ground (arith, first-delete (has_key key) (is_past now) rows a e)

-- The window of a key is its own, and is not over.
window_of-holds :
    (now : ℕ) (key : String) (next : ℕ) (rows : List Attempts)
    → (has_key key (window_of now key next (first (has_key key) rows)) ≡ true)
      × (now < (window_of now key next (first (has_key key) rows)).reset_at)
unfolding window_of
window_of-holds now key next rows = elim (Option-cases (first (has_key key) rows)) [
  | inl e ↦ (ground (arith, eq_iff key key), ground arith)
  | inr (a, e) ↦ (ground (arith, eq_iff key key, first-holds (has_key key) rows a e), ground arith)
]

key-differs :
    (own other key : String) → (own =ˢ other) ≡ true → (other =ˢ key) ≡ false → (own =ˢ key) ≡ false
key-differs own other key h k = ground (arith, eq_iff own other, eq_iff own key, eq_iff other key)

asks-found :
    (now until : ℕ) (other key : String) (next : ℕ) (rows : List Attempts) (a : Attempts)
    → now < until
    → first (has_key key) rows ≡ some a
    → a.reset_at ≡ until
    → first
        (has_key key)
        (set_attempts (window_of now other next (first (has_key other) rows)) rows)
      ≡ some a
unfolding window_of
asks-found now until other key next rows a h e r = elim (Bool-cases (other =ˢ key)) [
  | inl same ↦
      ground
        (arith, first-set_attempts key a rows, eq_iff other key, first-holds (has_key key) rows a e)
  | inr differ ↦
      let w = window_of now other next (first (has_key other) rows) in
      let (own, later) = window_of-holds now other next rows in
      first-set_attempts key w rows
      ∙ subst (λ b. (if b then some w else first (has_key key) rows) ≡ some a)
          (sym (key-differs w.key other key own differ)) e
]

asks-Held :
    (now until : ℕ) (other key : String) (s : Throttle)
    → now < until
    → Held until key s
    → Held until key (happen (asks now other) s)
unfolding happen window_of
asks-Held now until other key s h (a, e, r, n) = (
  a,
  purged-keeps key now
      (set_attempts (window_of now other s.next (first (has_key other) s.attempts)) s.attempts) a
      (asks-found now until other key s.next s.attempts a h e r) (omega arith),
  r,
  n,
)

happen-Held :
    (v : Event) (until : ℕ) (key : String) (s : Throttle)
    → Before until key v
    → Held until key s
    → Held until key (happen v s)
unfolding happen
happen-Held (asks now other) until key s b h = asks-Held now until other key s b h
happen-Held (fails window) until key s b (a, e, r, n) = (
  if has_window window a then record a { count = a.count + 1 } else a,
  ground (
    arith,
    first-update (has_key key) (has_window window) (λ x. record x { count = x.count + 1 })
        s.attempts (λ x. refl),
  ),
  ground arith,
  ground arith,
)
happen-Held (succeeds other) until key s b (a, e, r, n) = (
  a,
  first-delete (has_key key) (has_key other) s.attempts a e (
      ground (
        arith,
        first-holds (has_key key) s.attempts a,
        eq_iff a.key key,
        eq_iff a.key other,
        eq_iff other key,
      )),
  r,
  n,
)

happen_all-Held :
    (es : List Event) (until : ℕ) (key : String) (s : Throttle)
    → AllBefore until key es
    → Held until key s
    → Held until key (happen_all es s)
unfolding happen_all
happen_all-Held [] until key s bs h = h
happen_all-Held (e ∷ es) until key s (b, bs) h =
    happen_all-Held es until key (happen e s) bs (happen-Held e until key s b h)

blocks-held :
    (now : ℕ) (key : String) (s : Throttle) (a : Attempts)
    → first (has_key key) s.attempts ≡ some a
    → now < a.reset_at
    → login_limit ≤ a.count
    → (login_throttle now key s).0.0 ≡ true
unfolding login_throttle window_of
blocks-held now key s a e h n = ground arith

-- A key that is blocked stays blocked until its window is over: whatever requests ask, fail and
-- succeed before that, each request of the key is blocked, unless a request of this key that was
-- under way succeeds.
pub login_throttle-blocks :
    (now later : ℕ) (key : String) (s : Throttle) (w : Attempts) (es : List Event)
    → (login_throttle now key s).0 ≡ (true, w)
    → AllBefore w.reset_at key es
    → later < w.reset_at
    → (login_throttle later key (happen_all es (login_throttle now key s).1)).0.0 ≡ true
unfolding login_throttle
login_throttle-blocks now later key s w es h bs l =
    let v = window_of now key s.next (first (has_key key) s.attempts) in
    let (own, future) = window_of-holds now key s.next s.attempts in
    let start =
      purged-keeps key now (set_attempts v s.attempts) v
        (first-set_attempts key v s.attempts
          ∙ subst (λ b. (if b then some v else first (has_key key) s.attempts) ≡ some v) (sym own)
              refl)
        future in
    let (a, e, r, n) =
      happen_all-Held es w.reset_at key (login_throttle now key s).1 bs
        (v, start, ap (λ p. p.1.reset_at) h, leb→le login_limit v.count (ap (λ p. p.0) h)) in
    blocks-held later key (happen_all es (login_throttle now key s).1) a e
      (subst (λ t. later < t) (sym r) l) n
