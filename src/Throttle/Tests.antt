-- ===== src/Throttle/Tests.antt =====
-- The throttle at a key that has failed ten times.
use relaydot.Prelude.{◌≡◌, refl, true, List, [], ◌∷◌, arith}
use relaydot.Throttle.{Attempts, Throttle, window_of, login_throttle}
use relaydot.Throttle.Limit.{Event, asks, fails, succeeds, happen_all, login_throttle-blocks}

abbrev ten_failures : Attempts
ten_failures = record { key = "10.0.0.9"; window = 0; count = 10; reset_at = 900000 }

abbrev throttle : Throttle
throttle = record { attempts = ten_failures ∷ []; next = 1 }

abbrev others : List Event
others = asks 600000 "10.0.0.7" ∷ fails 1 ∷ asks 700000 "10.0.0.9" ∷ succeeds "10.0.0.7" ∷ []

asked : (login_throttle 500000 "10.0.0.9" throttle).0 ≡ (true, ten_failures)
unfolding login_throttle window_of
asked = refl

login_throttle-blocks_example :
    (login_throttle 899999 "10.0.0.9"
      (happen_all others (login_throttle 500000 "10.0.0.9" throttle).1)).0.0
    ≡ true
login_throttle-blocks_example =
    login_throttle-blocks 500000 899999 "10.0.0.9" throttle ten_failures others asked
      (omega arith, (tt, (omega arith, (refl, tt)))) (omega arith)
