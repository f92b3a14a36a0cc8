-- ===== src/Upgrade/Lock.antt =====
-- The lock of the upgrades (api/upgrade.ts) over any calls and ends of runs.
use soulnet.Prelude.{ℕ, ◌+◌, ◌≤◌, String, true, false, arith, length}
use soulnet.Prelude.{List, [], ◌∷◌, if◌then◌else◌, Bool-cases, inl, inr}
use soulnet.Prelude.{◌≡◌}
use soulnet.Upgrade.Safe.{run_upgrade-guarded}
use soulnet.Upgrade.{Upgrades, idle, RunOptions, finish, begin, Event, run_called, ended, step, run}

-- An answer was given for each run that took the lock, but for one while the lock is taken.
pub record IsCounted (s : Upgrades) : Type 0 where
  pub counted : length s.resolved + (if s.inflight then 1 else 0) ≡ s.started
  pub spawns : length s.spawned ≤ s.started

finish-IsCounted : (i exit_code : ℕ) (s : Upgrades) → IsCounted s → IsCounted (finish i exit_code s)
unfolding finish
finish-IsCounted i exit_code s h = elim (Bool-cases s.inflight) [
  | inl taken ↦
      simp taken (record { counted = ground (arith, h.counted, taken); spawns = h.spawns })
  | inr free ↦ simp free h
]

begin-IsCounted :
    (version dir : String) (options : RunOptions) (s : Upgrades)
    → s.inflight ≡ false
    → IsCounted s
    → IsCounted (begin version dir options s).0
unfolding begin
begin-IsCounted version dir options s free h =
    let taken : IsCounted (record s { inflight = true; started = s.started + 1 }) = record {
      counted = ground (arith, h.counted, free);
      spawns = omega (arith, h.spawns);
    } in
    elim (Bool-cases options.spawn_throws) [
      | inl thrown ↦ simp thrown (finish-IsCounted s.started 1 _ taken)
      | inr fine ↦ simp fine (record { counted = taken.counted; spawns = omega (arith, h.spawns) })
    ]

step-IsCounted : (e : Event) (s : Upgrades) → IsCounted s → IsCounted (step e s)
unfolding step
step-IsCounted (run_called version options) s h =
    run_upgrade-guarded IsCounted version options s h
      (λ dir valid listed free. begin-IsCounted version dir options s free h)
step-IsCounted (ended i exit_code) s h = finish-IsCounted i exit_code s h

run_from-IsCounted : (s : Upgrades) (es : List Event) → IsCounted s → IsCounted (run s es)
unfolding run
run_from-IsCounted s [] h = h
run_from-IsCounted s (e ∷ es) h = run_from-IsCounted (step e s) es (step-IsCounted e s h)

-- Over any calls and ends, of present and of earlier runs: as many answers are given as runs were
-- started, less one while the lock is taken, and no more commands are spawned than runs started; so
-- that there are never two commands more than answers.
pub run-IsCounted : (es : List Event) → IsCounted (run idle es)
run-IsCounted es =
    run_from-IsCounted idle es (record { counted = omega arith; spawns = omega arith })
