-- ===== src/GroupSettings/Tests.antt =====
-- The theorems about group-settings.ts at concrete inputs, for a `trim` that leaves a text alone.
use soulnet.Prelude.{◌≡◌, ◌≢◌, refl, arith, true, false, some, none, List, [], ◌∷◌, String, eq_iff}
use soulnet.Prelude.Dict.{lookup}
use soulnet.Json.{Json, str, bool, arr, of_items}
use soulnet.GroupSettings.{GroupSettings, normalize_commanders}
use soulnet.GroupSettings.Commanders.{IsWhitelist, normalize_commanders-IsWhitelist}
use soulnet.GroupSettings.Store.{
  GroupSettingsStore, GroupSettingsPatch, VoiceSwitch, always, voice_on, duty_of, set,
}
use soulnet.GroupSettings.Store.Valid.{IsValid, set-IsValid}
use soulnet.GroupSettings.Store.Effects.{set-duty, set-voice_off}

abbrev trim : String → String
trim s = s

abbrev raw : List Json
raw = str "ann" ∷ bool true ∷ str "" ∷ str "ann" ∷ str "*" ∷ []

normalize_commanders-IsWhitelist_example :
    IsWhitelist trim (normalize_commanders trim (some (arr (of_items raw))))
normalize_commanders-IsWhitelist_example =
    normalize_commanders-IsWhitelist trim (λ s. refl) (some (arr (of_items raw)))

kept : normalize_commanders trim (some (arr (of_items raw))) ≡ "ann" ∷ "*" ∷ []
unfolding normalize_commanders
kept = refl

abbrev dev_bot : GroupSettings
dev_bot = record {
  voices = some (("DevBot", record { commanders = none }) ∷ []);
  duty = some "DevBot";
  muted = none;
}

abbrev store : GroupSettingsStore
store = record { settings = ("g1", dev_bot) ∷ []; loaded = true; file = none }

abbrev no_patch : GroupSettingsPatch
no_patch = record { alter = none; mode = none; voice = none; duty = none; muted = none }

abbrev off : VoiceSwitch
off = record { name = "DevBot"; on = false; commanders = none }

abbrev switches_off : GroupSettingsPatch
switches_off = record no_patch { voice = some off }

abbrev puts_on_duty : GroupSettingsPatch
puts_on_duty = record no_patch { duty = some (some "Scout") }

abbrev legacy : GroupSettingsPatch
legacy = record no_patch { mode = some always }

store-IsValid : IsValid trim store.settings
unfolding lookup
store-IsValid = (
  (
    record {
      voices = (
        (record { named = ground (arith, eq_iff "DevBot" ""); commanders = tt }, tt),
        (refl, tt),
      );
      duty = refl;
      some_voice = ground arith;
      muted = ground arith;
      some_key = λ e. ground arith;
    },
    tt,
  ),
  (refl, tt),
)

set-IsValid_example : IsValid trim (set trim true store "g1" switches_off).0.settings
set-IsValid_example = set-IsValid trim (λ s. refl) true store "g1" switches_off store-IsValid

set-duty_example :
    (duty_of (set trim true store "g1" puts_on_duty).0 "g1" ≡ some "Scout")
    × (voice_on (set trim true store "g1" puts_on_duty).0 "g1" "Scout" ≡ true)
set-duty_example =
    set-duty trim true store "g1" puts_on_duty "Scout" (ground (arith, eq_iff "Scout" "")) refl

set-voice_off_example :
    (voice_on (set trim true store "g1" switches_off).0 "g1" "DevBot" ≡ false)
    × (duty_of (set trim true store "g1" switches_off).0 "g1" ≢ some "DevBot")
set-voice_off_example =
    set-voice_off trim true store "g1" switches_off off (ground (arith, eq_iff "DevBot" "")) refl
      refl refl
