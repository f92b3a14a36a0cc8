-- ===== src/Policy/Window.antt =====
-- dsh/packages/dsh/src/policy.ts, `HourlyWindow`: hits of the last hour for each friend. A method
-- that changes the map returns the new window beside its result; `now` is the clock's answer.
pub mod Ledger
use soulnet.Prelude.{ℕ, ◌+◌, ◌-◌, String, Option, none, some, List, [], ◌∷◌, ◌++◌}
use soulnet.Prelude.{Bool, ltb, get_or, filter, length}
use soulnet.Prelude.Dict.{Dict, lookup, insert, remove}

abbrev pub hour_ms : ℕ
hour_ms = 3_600_000

pub record HourlyWindow : Type 0 where
  pub hits : Dict (List ℕ)
  pub window_ms : ℕ

-- `now - ts < windowMs`, read over the integers
abbrev pub is_recent : ℕ → ℕ → ℕ → Bool
is_recent window now ts = ltb now (ts + window)

-- What `prune` returns, and the map that it leaves: an empty list is not kept.
keep : String → List ℕ → HourlyWindow → HourlyWindow
keep key [] w = record w { hits = remove key w.hits }
keep key (ts ∷ list) w = record w { hits = insert key (ts ∷ list) w.hits }

prune : HourlyWindow → String → ℕ → HourlyWindow × List ℕ
unfolding keep
prune w key now =
    let list = filter (is_recent w.window_ms now) (get_or (lookup key w.hits) []) in
    (keep key list w, list)

unfoldable pub count : HourlyWindow → String → ℕ → HourlyWindow × ℕ
unfolding prune
count w key now = let (w', list) = prune w key now in (w', length list)

unfoldable pub record_hit : HourlyWindow → String → ℕ → HourlyWindow × ℕ
unfolding prune
record_hit w key now =
    let (w', list) = prune w key now in
    let longer = list ++ now ∷ [] in (record w' { hits = insert key longer w'.hits }, length longer)

-- `Math.max(0, list[0] + windowMs - now)`
wait_of : List ℕ → ℕ → ℕ → ℕ
wait_of [] window now = 0
wait_of (oldest ∷ list) window now = oldest + window - now

unfoldable pub retry_after : HourlyWindow → String → ℕ → HourlyWindow × ℕ
unfolding prune wait_of
retry_after w key now = let (w', list) = prune w key now in (w', wait_of list w.window_ms now)
