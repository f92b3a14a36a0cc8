-- ===== src/FriendSettings/Tests.antt =====
-- The theorems about friend-settings.ts at concrete inputs.
use soulnet.Prelude.{◌≡◌, refl, true, some, none, [], ◌∷◌}
use soulnet.Prelude.{if◌then◌else◌, ◌==◌, is_some}
use soulnet.Prelude.Dict.{lookup, insert, remove}
use soulnet.Policy.{notify, auto, draft}
use soulnet.FriendSettings.{FriendSettingsStore, Patch, get, tier, set, load, over}
use soulnet.FriendSettings.Laws.{reread, tier-set, load-set}

abbrev store : FriendSettingsStore
store = record {
  friends =
      ("ann", record { tier = some auto; muted = some true })
      ∷ ("bob", record { tier = some notify; muted = none })
      ∷ [];
  loaded = true;
  file = none;
}

abbrev clears : Patch
clears = record { tier = some none; muted = none }

tier-set_example : tier (set true store "bob" clears).0 "bob" draft ≡ (
    if "bob" == "bob"
    then (elim clears.tier [
      | none ↦ tier store "bob" draft
      | some (some t) ↦ t
      | some none ↦
          if is_some (over clears.muted (get store "bob").muted)
          then tier store "bob" draft
          else draft
    ])
    else tier store "bob" draft)
tier-set_example = tier-set true store "bob" "bob" clears draft

cleared : tier (set true store "bob" clears).0 "bob" draft ≡ draft
unfolding set tier lookup insert remove
cleared = refl

load-set_example :
    get (load (set true store "ann" clears).0) "bob"
    ≡ reread (get (set true store "ann" clears).0 "bob")
unfolding lookup
load-set_example = load-set store "ann" "bob" clears (refl, (refl, tt))
