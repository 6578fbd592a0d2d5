-- ===== src/Limits/Rotate/Tests.antt =====
-- Calls of POST /session/rotate at concrete times.
use memento_mcp.Base.{◌≡◌, refl, [], ◌∷◌, true, Dict, arith}
use memento_mcp.Base.Maps
use memento_mcp.Limits.Rotate.{Entry, current, check_rotate_rate_limit}
use memento_mcp.Limits.Rotate.Laws.{check-retry_after}

abbrev used_up : Dict Entry
used_up =
    ("1.2.3.4", record { count = 1; window_start = 0 })
    ∷ ("a", record { count = 2; window_start = 500 })
    ∷ []

-- Half a second into its window the address waits a minute; the counter is then new.
check-retry_after_example :
    (check_rotate_rate_limit (check_rotate_rate_limit used_up "a" 2 1000).0 "a" 2 61000).1.allowed
    ≡ true
unfolding check_rotate_rate_limit current Maps.get
check-retry_after_example =
    check-retry_after used_up "a" 2 1000 61000 (omega arith) refl (omega arith)
