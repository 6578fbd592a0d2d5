-- ===== src/Limits/Rotate/Laws.antt =====
-- What a caller of POST /session/rotate can rely on.
use memento_mcp.Base.{
  ℕ, ◌+◌, ◌-◌, ◌*◌, ◌/◌, ◌≤◌, ◌<◌, ◌≡◌, String, true, false, Dict, eq_refl, get-put, arith,
}
use memento_mcp.Base.Maps
use memento_mcp.Limits.Rotate.{Entry, current, window_ms, check_rotate_rate_limit}

-- An entry whose window is over by the time of the call does not refuse it.
again :
    (e : Entry) (store : Dict Entry) (ip : String) (limit now later : ℕ)
    → 0 < limit
    → limit ≤ e.count
    → now + (e.window_start + window_ms - now + 999) / 1000 * 1000 ≤ later
    → (check_rotate_rate_limit (Maps.put ip e store) ip limit later).1.allowed ≡ true
unfolding check_rotate_rate_limit current
again e store ip limit now later pos full waited =
    rw (get-put ip ip e store, eq_refl ip) (ground arith)

-- A refusal: the entry counts as many calls as the limit, and is stored as it was read.
refusal :
    (store : Dict Entry) (ip : String) (limit now : ℕ)
    → (check_rotate_rate_limit store ip limit now).1.allowed ≡ false
    → let e = current (Maps.get ip store) now in
      (limit ≤ e.count)
      × (check_rotate_rate_limit store ip limit now ≡ (
        Maps.put ip e store,
        record { allowed = false; retry_after = (e.window_start + window_ms - now + 999) / 1000 },
      ))
unfolding check_rotate_rate_limit
refusal store ip limit now h = ground arith

-- A refused address that asks again after the seconds it was told to wait is allowed, whatever the
-- clock shows and whatever the other entries are, if the limit is positive.
pub check-retry_after :
    (store : Dict Entry) (ip : String) (limit now later : ℕ)
    → 0 < limit
    → (check_rotate_rate_limit store ip limit now).1.allowed ≡ false
    → now + (check_rotate_rate_limit store ip limit now).1.retry_after * 1000 ≤ later
    → (check_rotate_rate_limit
        (check_rotate_rate_limit store ip limit now).0
        ip
        limit
        later).1.allowed
      ≡ true
check-retry_after store ip limit now later pos refused waited =
    let (full, e) = refusal store ip limit now refused in
    rw e
      (again (current (Maps.get ip store) now) store ip limit now later pos full (rw e at waited))
