-- ===== src/Upgrade/Tests.antt =====
-- The theorems about upgrades at concrete events: a version with a shell character, an upgrade that
-- times out, and a second one, in which the end of the first process arrives late.
use soulnet.Prelude.{
  ℕ, String, Option, none, ◌==◌, if◌then◌else◌, ◌≡◌, refl, false, some, List, [], ◌∷◌, All,
}
use soulnet.Upgrade.{RunOptions, Event, run_called, ended, run, idle}
use soulnet.Upgrade.Safe.{IsSafe, spawned-AreSafe}
use soulnet.Upgrade.Versions.{compare_versions, compare_versions-dash}

abbrev options : RunOptions
options = record {
  profile_dir = some "/dsh/profiles/web";
  registry = some "https://registry.npmjs.org";
  spawn_throws = false;
}

abbrev events : List Event
events =
    run_called "1.2.3;rm" options
    ∷ run_called "1.2.3" options
    ∷ ended 0 124
    ∷ run_called "1.2.4-rc.1" options
    ∷ ended 0 1
    ∷ ended 1 0
    ∷ []

spawned-AreSafe_example : All IsSafe (run idle events).spawned
spawned-AreSafe_example = spawned-AreSafe events

-- `Number`, of the texts that occur
abbrev number : String → Option ℕ
number s = if s == "0" then some 0 else (if s == "1" then some 1 else none)

-- a second candidate of a release is no update of the first
compare_versions-dash_example :
    (compare_versions number "1.0.0-rc-1" "1.0.0-rc-2"
      ≡ compare_versions number "1.0.0-rc" "1.0.0-rc-2")
    × (compare_versions number "1.0.0-rc-2" "1.0.0-rc-1"
        ≡ compare_versions number "1.0.0-rc-2" "1.0.0-rc")
compare_versions-dash_example =
    compare_versions-dash number "1.0.0" "rc" "1" "1.0.0-rc-2"
      (refl, (refl, (refl, (refl, (refl, tt))))) (refl, (refl, tt))
