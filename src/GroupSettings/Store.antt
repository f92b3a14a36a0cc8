-- ===== src/GroupSettings/Store.antt =====
-- `GroupSettingsStore` of group-settings.ts.
pub mod Valid
pub mod Effects
use soulnet.Prelude.{String, Bool, true, false, Option, none, some, List, [], ◌∷◌, map}
use soulnet.Prelude.{◌==◌, ◌&&◌, not, if◌then◌else◌, get_or, is_some, equals}
use soulnet.Prelude.Dict.{Dict, lookup, insert, remove}
use soulnet.Json.{Json, bool, str, arr, obj, Fields, of_items, of_entries}
use soulnet.GroupSettings.{
  voice_alter, GroupVoiceSetting, GroupSettings, no_settings, unless_nil, normalize_commanders,
  is_nil, duty_in, entry_of, true_only, settings_of_file,
}

pub data GroupAlterMode : Type 0 where
  mention always : GroupAlterMode

-- One voice of a patch.
pub record VoiceSwitch : Type 0 where
  pub name : String
  pub on : Bool
  pub commanders : Option (List String)

-- `none` is a key that is undefined; `duty: null` is `some none`.
pub record GroupSettingsPatch : Type 0 where
  pub alter : Option Bool
  pub mode : Option GroupAlterMode
  pub voice : Option VoiceSwitch
  pub duty : Option (Option String)
  pub muted : Option Bool

pub record GroupSettingsStore : Type 0 where
  pub settings : Dict GroupSettings
  pub loaded : Bool
  pub file : Option Json

unfoldable pub get : GroupSettingsStore → String → GroupSettings
get s gid = get_or (lookup gid s.settings) no_settings

abbrev pub voices_of : GroupSettings → Dict GroupVoiceSetting
voices_of e = get_or e.voices []

unfoldable pub voice_on : GroupSettingsStore → String → String → Bool
unfolding get
voice_on s gid name = is_some (lookup name (voices_of (get s gid)))

abbrev commanders_in : Option GroupVoiceSetting → List String
commanders_in none = []
commanders_in (some v) = get_or v.commanders []

unfoldable pub commanders_of : GroupSettingsStore → String → String → List String
unfolding get
commanders_of s gid name = commanders_in (lookup name (voices_of (get s gid)))

unfoldable pub duty_of : GroupSettingsStore → String → Option String
unfolding get
duty_of s gid = (get s gid).duty

unfoldable pub alter_on : GroupSettingsStore → String → Bool
unfolding voice_on
alter_on s gid = voice_on s gid voice_alter

unfoldable pub mode_of : GroupSettingsStore → String → GroupAlterMode
unfolding duty_of
mode_of s gid = if equals (duty_of s gid) voice_alter then always else mention

-- What `JSON.stringify` writes.
voice_to_json : GroupVoiceSetting → Json
voice_to_json v = elim v.commanders [
  | none ↦ obj (Fields.field "on" (bool true) Fields.end)
  | some cs ↦ obj (
      Fields.field "on" (bool true)
        (Fields.field "commanders" (arr (of_items (map str cs))) Fields.end))
]

voices_to_json : Dict GroupVoiceSetting → Dict Json
unfolding voice_to_json
voices_to_json [] = []
voices_to_json ((name, v) ∷ vs) = (name, voice_to_json v) ∷ voices_to_json vs

abbrev opt_field : String → Option Json → Fields → Fields
opt_field key none fs = fs
opt_field key (some v) fs = Fields.field key v fs

abbrev opt_map {ℓ κ} : {A : Type ℓ} {B : Type κ} → (A → B) → Option A → Option B
opt_map f none = none
opt_map f (some a) = some (f a)

entry_to_json : GroupSettings → Json
unfolding voices_to_json
entry_to_json e = obj (
    opt_field "voices" (opt_map (λ vs. obj (of_entries (voices_to_json vs))) e.voices)
      (opt_field "duty" (opt_map str e.duty) (opt_field "muted" (opt_map bool e.muted) Fields.end)))

settings_to_json : Dict GroupSettings → Dict Json
unfolding entry_to_json
settings_to_json [] = []
settings_to_json ((gid, e) ∷ m) = (gid, entry_to_json e) ∷ settings_to_json m

unfoldable pub to_json : Dict GroupSettings → Json
unfolding settings_to_json
to_json m = obj (of_entries (settings_to_json m))

pub save : Bool → GroupSettingsStore → GroupSettingsStore
save written s = if written then record s { file = some (to_json s.settings) } else s

-- The variables `voices` and `duty` of `set`, which `switchVoice` assigns.
pub record Edit : Type 0 where
  pub voices : Dict GroupVoiceSetting
  pub duty : Option String

abbrev patch_over : Option Bool → Option Bool → Option Bool
patch_over none current = current
patch_over (some b) current = some b

module _ (trim : String → String) where
  unfoldable pub load : GroupSettingsStore → GroupSettingsStore
  load s = record s { settings = settings_of_file trim s.file; loaded = true }

  -- `voices[name]?.commanders`, or the given ones brought into form
  abbrev kept_commanders : Option GroupVoiceSetting → Option (List String) → Option (List String)
  kept_commanders none none = none
  kept_commanders (some v) none = v.commanders
  kept_commanders old (some cs) =
      some (normalize_commanders trim (some (arr (of_items (map str cs)))))

  switch_voice : String → Bool → Option (List String) → Edit → Edit
  switch_voice name on commanders d =
      if trim name == ""
      then d
      else (if on
          then (let kept = kept_commanders (lookup name d.voices) commanders in
              record d {
                voices = insert name (record { commanders = unless_nil (get_or kept []) }) d.voices;
              })
          else record {
            voices = remove name d.voices;
            duty = if equals d.duty name then none else d.duty;
          })

  patch_alter : Option Bool → Edit → Edit
  patch_alter none d = d
  patch_alter (some on) d = switch_voice voice_alter on none d

  patch_mode : Option GroupAlterMode → Edit → Edit
  patch_mode none d = d
  patch_mode (some always) d = record (switch_voice voice_alter true none d) {
    duty = some voice_alter;
  }
  patch_mode (some mention) d = if equals d.duty voice_alter then record d { duty = none } else d

  patch_voice : Option VoiceSwitch → Edit → Edit
  patch_voice none d = d
  patch_voice (some v) d = switch_voice v.name v.on v.commanders d

  patch_duty : Option (Option String) → Edit → Edit
  patch_duty none d = d
  patch_duty (some none) d = record d { duty = none }
  patch_duty (some (some duty)) d =
      if trim duty == "" then d else record (switch_voice duty true none d) { duty = some duty }

  -- The draft after the parts of the patch, in the order of the code.
  patched : GroupSettings → GroupSettingsPatch → Edit
  unfolding switch_voice patch_alter patch_mode patch_voice patch_duty
  patched current patch = patch_duty patch.duty (
      patch_voice patch.voice (
        patch_mode patch.mode
          (patch_alter patch.alter (record { voices = voices_of current; duty = current.duty }))))

  settings_after :
      Dict GroupSettings → String → GroupSettings → GroupSettingsPatch → Dict GroupSettings
  settings_after m gid current patch =
      let d = patched current patch in
      let duty = duty_in d.voices d.duty in
      let muted = get_or (patch_over patch.muted current.muted) false in
      if is_nil d.voices && not (is_some duty) && not muted
      then remove gid m
      else insert gid (entry_of d.voices duty muted) m

  unfoldable pub set :
      Bool
      → GroupSettingsStore
      → String
      → GroupSettingsPatch
      → GroupSettingsStore × Option GroupSettings
  unfolding get save patched settings_after
  set written s gid patch =
      let m = settings_after s.settings gid (get s gid) patch in
      let s' = save written (record s { settings = m }) in
      (s', if written then some (get s' gid) else none)

unfoldable pub remove_group :
    Bool → GroupSettingsStore → String → GroupSettingsStore × Option (Unit {0})
unfolding save
remove_group written s gid =
    if is_some (lookup gid s.settings)
    then (
      save written (record s { settings = remove gid s.settings }),
      if written then some tt else none,
    )
    else (s, some tt)
