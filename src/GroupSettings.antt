-- ===== src/GroupSettings.antt =====
-- dsh/packages/dsh/src/group-settings.ts: which of the owner's voices take part in a group, who may
-- command them, and the one on duty. The file is the value that `JSON.parse` answers, `none` if that
-- throws. Whether the host carries a write out is an argument; a failed write rejects the promise,
-- here the result `none`, after the memory has changed. `trim` is the host's, applied to a string:
-- a parameter of what uses it.
pub mod Store
mod Tests
pub mod Commanders
use soulnet.Prelude.{
  ℕ, zero, suc, String, Bool, true, false, Option, none, some, List, [], ◌∷◌, ◌++◌,
}
use soulnet.Prelude.{◌==◌, ◌&&◌, ◌||◌, not, if◌then◌else◌, get_or, is_some, any, length, eqb}
use soulnet.Prelude.Dict.{Dict, lookup, insert, remove, collect}
use soulnet.Json.{Json, bool, str, arr, obj, items, key_of, object_entries, is_true, text_of}

abbrev pub voice_alter : String
voice_alter = "alter"

abbrev pub commander_any : String
commander_any = "*"

abbrev pub max_commanders : ℕ
max_commanders = 64

-- A voice that is on; the record `{ on: true, commanders? }`.
pub record GroupVoiceSetting : Type 0 where
  pub commanders : Option (List String)

pub record GroupSettings : Type 0 where
  pub voices : Option (Dict GroupVoiceSetting)
  pub duty : Option String
  pub muted : Option Bool

abbrev pub no_settings : GroupSettings
no_settings = record { voices = none; duty = none; muted = none }

-- `if (out.includes(v)) continue`
abbrev pub includes : List String → String → Bool
includes out v = any (λ c. c == v) out

-- `xs.length === 0 ? {} : { commanders: xs }`
abbrev pub unless_nil : List String → Option (List String)
unless_nil [] = none
unless_nil (c ∷ cs) = some (c ∷ cs)

module _ (trim : String → String) where
  -- The loop of `normalizeCommanders`; it breaks when 64 are kept.
  commanders_loop : List String → List Json → List String
  commanders_loop out [] = out
  commanders_loop out (str c ∷ cs) =
      let v = trim c in
      let skipped = commanders_loop out cs in
      let longer = out ++ v ∷ [] in
      let kept = commanders_loop longer cs in
      if v == "" || includes out v
      then skipped
      else (if eqb (length longer) max_commanders then longer else kept)
  commanders_loop out (_ ∷ cs) = commanders_loop out cs

  unfoldable pub normalize_commanders : Option Json → List String
  unfolding commanders_loop
  normalize_commanders (some (arr raw)) = commanders_loop [] (items raw)
  normalize_commanders _ = []

  -- One entry of `voices`: `true`, or an object that is on.
  read_voice : Json → Option GroupVoiceSetting
  unfolding normalize_commanders
  read_voice (bool on) = if on then some (record { commanders = none }) else none
  read_voice entry =
      if is_true (key_of "on" entry)
      then some
          (record { commanders = unless_nil (normalize_commanders (key_of "commanders" entry)) })
      else none

  -- The loop over `Object.entries(rawVoices)`; a blank name is skipped.
  read_voices : Dict GroupVoiceSetting → Dict Json → Dict GroupVoiceSetting
  unfolding read_voice
  read_voices out [] = out
  read_voices out ((name, entry) ∷ es) =
      let skipped = read_voices out es in
      let read : Dict GroupVoiceSetting = elim (read_voice entry) [
        | none ↦ skipped
        | some v ↦ read_voices (insert name v out) es
      ] in
      if trim name == "" then skipped else read

-- `typeof rawVoices === 'object' && rawVoices !== null`
voice_entries : Option Json → Dict Json
voice_entries (some (obj fs)) = object_entries (obj fs)
voice_entries (some (arr vs)) = object_entries (arr vs)
voice_entries _ = []

-- `Object.keys(voices).length === 0 ? {} : { voices }`
abbrev pub some_voices : Dict GroupVoiceSetting → Option (Dict GroupVoiceSetting)
some_voices [] = none
some_voices (v ∷ vs) = some (v ∷ vs)

-- A duty that no voice stands for is dropped: duty implies participation. A voice has no name of
-- `Object.prototype`, whose members the source would find here.
abbrev pub duty_in : Dict GroupVoiceSetting → Option String → Option String
duty_in voices none = none
duty_in voices (some duty) = if is_some (lookup duty voices) then some duty else none

-- `muted ? { muted: true } : {}`
abbrev pub true_only : Bool → Option Bool
true_only muted = if muted then some true else none

abbrev pub is_nil {ℓ} : {A : Type ℓ} → List A → Bool
is_nil [] = true
is_nil (_ ∷ _) = false

abbrev pub entry_of : Dict GroupVoiceSetting → Option String → Bool → GroupSettings
entry_of voices duty muted = record {
  voices = some_voices voices;
  duty = duty;
  muted = true_only muted;
}

module _ (trim : String → String) where
  -- `normalizeEntry`; the shape of version 1 (`alter`, `mode`) is folded in.
  read_entry : Dict GroupVoiceSetting → Json → Option GroupSettings
  read_entry named v =
      let voices =
        if is_true (key_of "alter" v)
        then insert voice_alter (record { commanders = none }) named
        else named in
      let stored = text_of (key_of "duty" v) in
      let on_duty = text_of (key_of "mode" v) == "always" && is_some (lookup voice_alter voices) in
      let duty =
        if stored == "" then (if on_duty then some voice_alter else none) else some stored in
      let muted = is_true (key_of "muted" v) in
      if is_nil voices && not muted
      then none
      else some (entry_of voices (duty_in voices duty) muted)

  normalize_entry : Json → Option GroupSettings
  unfolding read_entry read_voices voice_entries
  normalize_entry (obj v) =
      read_entry (read_voices trim [] (voice_entries (key_of "voices" (obj v)))) (obj v)
  normalize_entry _ = none

  unfoldable pub settings_of_file : Option Json → Dict GroupSettings
  unfolding normalize_entry
  settings_of_file (some (obj fs)) = collect normalize_entry [] (object_entries (obj fs))
  settings_of_file (some (arr vs)) = collect normalize_entry [] (object_entries (arr vs))
  settings_of_file _ = []
