-- ===== src/Upgrade.antt =====
-- dsh/packages/dsh/src/api/upgrade.ts: the check of a version, the search of a registry that knows
-- the latest one, and the runs of pnpm with the lock that they share.
pub mod Safe
pub mod Lock
pub mod Versions
mod Tests
use Prim.Native.Char.{Char, code}
use soulnet.Prelude.{
  ℕ, zero, suc, ◌+◌, leb, eqb, String, Bool, true, false, not, ◌&&◌, ◌||◌, Option, none, some,
}
use soulnet.Prelude.{List, [], ◌∷◌, ◌++◌, ◌==◌, if◌then◌else◌, any}
use soulnet.Prelude.Text.{◌⧺◌}

abbrev pub upgrade_package : String
upgrade_package = "soulnet-dsh"

abbrev pub upgrade_registries : List String
upgrade_registries = "https://registry.npmjs.org" ∷ "https://registry.npmmirror.com" ∷ []

abbrev pub is_digit : Char → Bool
is_digit c = leb 48 (code c) && leb (code c) 57

-- `[0-9A-Za-z-]`
abbrev pub is_ident : Char → Bool
is_ident c =
    is_digit c
    || leb 65 (code c) && leb (code c) 90
    || leb 97 (code c) && leb (code c) 122
    || eqb (code c) 45

-- SEMVER_RE as an automaton: before a number, behind a 0 or inside a number, with so many numbers
-- still to come; before and inside an identifier of the prerelease.
pub data Place : Type 0 where
  before_number behind_zero in_number : ℕ → Place
  before_ident in_ident : Place

abbrev after_number : ℕ → Char → Option Place
after_number (suc k) c = if eqb (code c) 46 then some (before_number k) else none
after_number zero c = if eqb (code c) 45 then some before_ident else none

unfoldable pub read_char : Place → Char → Option Place
read_char (before_number k) c =
    if eqb (code c) 48
    then some (behind_zero k)
    else (if is_digit c then some (in_number k) else none)
read_char (behind_zero k) c = after_number k c
read_char (in_number k) c = if is_digit c then some (in_number k) else after_number k c
read_char before_ident c = if is_ident c then some in_ident else none
read_char in_ident c =
    if is_ident c then some in_ident else (if eqb (code c) 46 then some before_ident else none)

abbrev may_end : Place → Bool
may_end (behind_zero zero) = true
may_end (in_number zero) = true
may_end in_ident = true
may_end _ = false

unfoldable pub matches_from : Place → String → Bool
unfolding read_char
matches_from at String.[] = may_end at
matches_from at (String.◌∷◌ c s) = elim (read_char at c) [
  | none ↦ false
  | some next ↦ matches_from next s
]

unfoldable pub is_valid_version : String → Bool
unfolding matches_from
is_valid_version version = matches_from (before_number 2) version

-- What a registry answers to the request of the metadata: it fails, or a status that is not ok, or
-- the `dist-tags.latest` of its answer.
pub data Fetched : Type 0 where
  fetch_failed : String → Fetched
  not_ok : String → Fetched
  tagged : Option String → Fetched

pub record Latest : Type 0 where
  pub latest : String
  pub registry : String

-- `fetchLatest`: the first registry that answers sanely, or the failures of all.
module _ (fetch : String → Fetched) where
  abbrev pub sane : String → Fetched → Option Latest
  sane registry (tagged (some version)) =
      if is_valid_version version
      then some (record { latest = version; registry = registry })
      else none
  sane registry _ = none

  abbrev failure_of : String → Fetched → String
  failure_of registry (fetch_failed message) = registry ⧺ ": " ⧺ message
  failure_of registry (not_ok status) = registry ⧺ ": HTTP " ⧺ status
  failure_of registry (tagged _) = registry ⧺ ": no valid dist-tags.latest"

  unfoldable pub fetch_latest : List String → List String → List String × Option Latest
  unfolding is_valid_version
  fetch_latest [] failures = (failures, none)
  fetch_latest (registry ∷ registries) failures = elim (sane registry (fetch registry)) [
    | some found ↦ (failures, some found)
    | none ↦ fetch_latest registries (failures ++ failure_of registry (fetch registry) ∷ [])
  ]

pub record Spawn : Type 0 where
  pub version : String
  pub profile_dir : String
  pub registry : Option String

-- the arguments of pnpm
abbrev pub pnpm_args : Spawn → List String
pnpm_args s = "add" ∷ (upgrade_package ⧺ "@" ⧺ s.version) ∷ []

-- `spawned` are the commands, the newest first, `started` and `resolved` the runs that took the
-- lock and the calls of `resolvePromise`, with their exit codes.
pub record Upgrades : Type 0 where
  pub inflight : Bool
  pub spawned : List Spawn
  pub started : ℕ
  pub resolved : List (ℕ × ℕ)

abbrev pub idle : Upgrades
idle = record { inflight = false; spawned = []; started = 0; resolved = [] }

-- The options of a run: the directory of the profile, or what its search throws; and what the spawn
-- of pnpm throws.
pub record RunOptions : Type 0 where
  pub profile_dir : Option String
  pub registry : Option String
  pub spawn_throws : Bool

-- `finish` of a run: of the timer, of the error or of the end of its process.
unfoldable pub finish : ℕ → ℕ → Upgrades → Upgrades
finish run exit_code s =
    if s.inflight
    then record s { inflight = false; resolved = (run, exit_code) ∷ s.resolved }
    else s

abbrev pub is_allowed : Option String → Bool
is_allowed none = true
is_allowed (some registry) = any (λ r. r == registry) upgrade_registries

-- Why a call is rejected; the texts of the errors name the version and the places looked at.
pub data Refusal : Type 0 where
  invalid_version registry_not_listed no_profile already_running : Refusal

pub data Started : Type 0 where
  refused : Refusal → Started
  running : ℕ → Started

-- The new run behind its guards.
unfoldable pub begin : String → String → RunOptions → Upgrades → Upgrades × Started
unfolding finish
begin version profile_dir options s =
    let id = s.started in
    let s' = record s { inflight = true; started = id + 1 } in
    (
      if options.spawn_throws then finish id 1 s' else record s' {
        spawned =
            record { version = version; profile_dir = profile_dir; registry = options.registry }
            ∷ s.spawned;
      },
      running id,
    )

unfoldable pub run_upgrade : String → RunOptions → Upgrades → Upgrades × Started
unfolding is_valid_version begin
run_upgrade version options s =
    if not (is_valid_version version)
    then (s, refused invalid_version)
    else (if not (is_allowed options.registry)
        then (s, refused registry_not_listed)
        else elim options.profile_dir [
          | none ↦ (s, refused no_profile)
          | some dir ↦
              if s.inflight then (s, refused already_running) else begin version dir options s
        ])

-- A call of `runUpgrade`, or an end of the process of a run or its timeout, also of an earlier one.
pub data Event : Type 0 where
  run_called : String → RunOptions → Event
  ended : ℕ → ℕ → Event

unfoldable pub step : Event → Upgrades → Upgrades
unfolding run_upgrade finish
step (run_called version options) s = (run_upgrade version options s).0
step (ended run exit_code) s = finish run exit_code s

unfoldable pub run : Upgrades → List Event → Upgrades
unfolding step
run s [] = s
run s (e ∷ es) = run (step e s) es
