-- ===== src/Throttle.antt =====
-- apps/web/src/lib/security.ts: the throttle of sign-in attempts. Times are milliseconds. A window
-- is an object that a request keeps while it waits, so it carries an identity.
pub mod Limit
mod Tests
use relaydot.Prelude.{
  ℕ, ◌+◌, String, Bool, Option, none, some, List, [], ◌∷◌, ltb, leb, ◌==◌, ◌=ˢ◌, if◌then◌else◌,
  first, update, delete, length,
}

pub record Attempts : Type 0 where
  pub key : String
  pub window : ℕ
  pub count : ℕ
  pub reset_at : ℕ

-- The map `attempts` in the order of its keys, and the next identity.
pub record Throttle : Type 0 where
  pub attempts : List Attempts
  pub next : ℕ

abbrev pub login_window_ms : ℕ
login_window_ms = 900000

abbrev pub login_limit : ℕ
login_limit = 10

abbrev pub has_key : String → Attempts → Bool
has_key key a = a.key =ˢ key

abbrev pub has_window : ℕ → Attempts → Bool
has_window window a = a.window == window

abbrev pub is_past : ℕ → Attempts → Bool
is_past now a = leb a.reset_at now

-- `attempts.set`: a key that is there keeps its place.
pub set_attempts : Attempts → List Attempts → List Attempts
set_attempts w [] = w ∷ []
set_attempts w (a ∷ rows) = if has_key w.key a then w ∷ rows else a ∷ set_attempts w rows

abbrev fresh : ℕ → String → ℕ → Attempts
fresh now key window = record {
  key = key;
  window = window;
  count = 0;
  reset_at = now + login_window_ms;
}

-- `window`: the one that is there, unless it is over.
pub window_of : ℕ → String → ℕ → Option Attempts → Attempts
window_of now key next none = fresh now key next
window_of now key next (some a) = if is_past now a then fresh now key next else a

abbrev pub purged : ℕ → List Attempts → List Attempts
purged now rows = if ltb 1000 (length rows) then delete (is_past now) rows else rows

-- `blocked`, the window that the closures keep, and the map that is left.
pub login_throttle : ℕ → String → Throttle → (Bool × Attempts) × Throttle
login_throttle now key s =
    let w = window_of now key s.next (first (has_key key) s.attempts) in
    (
      (leb login_limit w.count, w),
      record { attempts = purged now (set_attempts w s.attempts); next = s.next + 1 },
    )

abbrev counted : Attempts → Attempts
counted a = record a { count = a.count + 1 }

-- The closure `fail` of a window.
pub fail : ℕ → Throttle → Throttle
fail window s = record s { attempts = update (has_window window) counted s.attempts }

-- The closure `reset` of a key.
pub reset : String → Throttle → Throttle
reset key s = record s { attempts = delete (has_key key) s.attempts }

pub reset_login_throttle : Throttle → Throttle
reset_login_throttle s = record s { attempts = [] }
