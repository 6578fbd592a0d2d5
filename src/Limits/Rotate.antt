-- ===== src/Limits/Rotate.antt =====
-- lib/handlers/_rotate-ratelimit.js: the fixed-window counter of POST /session/rotate. The address
-- that `extractIp` takes from the request, the limit that `getLimit` reads and `Date.now()` are
-- arguments. The clock may be behind `windowStart`: JavaScript's difference is then negative, and
-- so below the window, as the truncated one is; the wait is computed from the sum, as there.
pub mod Laws
mod Tests
use memento_mcp.Base.{
  ℕ, ◌+◌, ◌-◌, ◌/◌, String, Option, none, some, Bool, true, false, leb, if◌then◌else◌, Dict,
}
use memento_mcp.Base.Maps

abbrev pub window_ms : ℕ
window_ms = 60000

pub record Entry : Type 0 where
  pub count : ℕ
  pub window_start : ℕ

pub record Verdict : Type 0 where
  pub allowed : Bool
  pub retry_after : ℕ

abbrev fresh : ℕ → Entry
fresh now = record { count = 0; window_start = now }

-- The stored entry, or that of a window which starts now.
unfoldable pub current : Option Entry → ℕ → Entry
current none now = fresh now
current (some e) now = if leb window_ms (now - e.window_start) then fresh now else e

unfoldable pub check_rotate_rate_limit : Dict Entry → String → ℕ → ℕ → Dict Entry × Verdict
check_rotate_rate_limit store ip limit now =
    let e = current (Maps.get ip store) now in
    if leb limit e.count
    then (
      Maps.put ip e store,
      record { allowed = false; retry_after = (e.window_start + window_ms - now + 999) / 1000 },
    )
    else (
      Maps.put ip (record e { count = e.count + 1 }) store,
      record { allowed = true; retry_after = 0 },
    )
