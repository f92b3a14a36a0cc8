-- ===== src/GroupSettings/Store/Effects.antt =====
-- What a patch of group-settings.ts does to what can be read.
use soulnet.Prelude.{String, Bool, true, false, Option, none, some, List, [], ◌∷◌}
use soulnet.Prelude.{
  ◌==◌, ◌≡◌, ◌≢◌, refl, ap, ◌∙◌, arith, eq_iff, eq_refl, if◌then◌else◌, get_or, is_some, equals,
  eq_of_some-eq-some,
}
use soulnet.Prelude.{Bool-cases, inl, inr, ◌&&◌, not}
use soulnet.Prelude.Dict.{Dict, lookup, lookup-insert, lookup-remove}
use soulnet.GroupSettings.{
  voice_alter, GroupVoiceSetting, GroupSettings, duty_in, entry_of, is_nil, no_settings,
}
use soulnet.GroupSettings.Store.{
  GroupSettingsStore, GroupSettingsPatch, VoiceSwitch, mention, always, Edit, voices_of, get,
  voice_on, duty_of, alter_on, mode_of, switch_voice, patch_alter, patch_mode, patch_voice,
  patch_duty, patched, patch_over, settings_after, set,
}
use soulnet.GroupSettings.Store.Valid.{settings-save, get_or-some_voices}

duty_in-ne :
    (name : String) (vs : Dict GroupVoiceSetting) (o : Option String)
    → is_some (lookup name vs) ≡ false
    → duty_in vs o ≢ some name
duty_in-ne name vs none absent e = cc
duty_in-ne name vs (some duty) absent e = elim (Bool-cases (is_some (lookup duty vs))) [
  | inl there ↦
      let same : duty ≡ name = eq_of_some-eq-some (rw there at e) in
      let found : is_some (lookup name vs) ≡ true = rw (← same) there in ground arith
  | inr gone ↦ let none_some : none ≡ some name = rw gone at e in cc
]

duty_in_of_some :
    (name : String) (vs : Dict GroupVoiceSetting) (o : Option String)
    → o ≡ some name
    → is_some (lookup name vs) ≡ true
    → duty_in vs o ≡ some name
duty_in_of_some name vs o e there = rw e (rw there)

mode_of_lem :
    (s : GroupSettingsStore) (gid : String)
    → mode_of s gid ≡ (if equals (duty_of s gid) voice_alter then always else mention)
unfolding mode_of
mode_of_lem s gid = refl

alter_on_lem : (s : GroupSettingsStore) (gid : String) → alter_on s gid ≡ voice_on s gid voice_alter
unfolding alter_on
alter_on_lem s gid = refl

module _ (trim : String → String) where
  -- An entry without a key reads like no entry.
  entry_of_empty :
      (vs : Dict GroupVoiceSetting) (duty : Option String) (muted : Bool)
      → (is_nil vs && not (is_some duty) && not muted) ≡ true
      → no_settings ≡ entry_of vs duty muted
  entry_of_empty [] duty muted h = ground arith
  entry_of_empty (v ∷ vs) duty muted h = cc

  lookup-settings_after :
      (m : Dict GroupSettings) (gid j : String) (current : GroupSettings)
      (patch : GroupSettingsPatch)
      → get_or (lookup j (settings_after trim m gid current patch)) no_settings ≡ (
          if gid == j
          then (let d = patched trim current patch in
              entry_of d.voices
                (duty_in d.voices d.duty)
                (get_or (patch_over patch.muted current.muted) false))
          else get_or (lookup j m) no_settings)
  unfolding settings_after
  lookup-settings_after m gid j current patch =
      let d = patched trim current patch in
      let duty = duty_in d.voices d.duty in
      let muted = get_or (patch_over patch.muted current.muted) false in
      elim (Bool-cases (is_nil d.voices && not (is_some duty) && not muted)) [
        | inl empty ↦
            rw empty
              (ground (arith, lookup-remove gid j m, entry_of_empty d.voices duty muted empty))
        | inr kept ↦ rw kept (ground (arith, lookup-insert gid j (entry_of d.voices duty muted) m))
      ]

  get-set :
      (written : Bool) (s : GroupSettingsStore) (gid j : String) (patch : GroupSettingsPatch)
      → get (set trim written s gid patch).0 j ≡ (
          if gid == j
          then (let d = patched trim (get s gid) patch in
              entry_of d.voices
                (duty_in d.voices d.duty)
                (get_or (patch_over patch.muted (get s gid).muted) false))
          else get s j)
  unfolding set get
  get-set written s gid j patch =
      rw (settings-save written _) (lookup-settings_after s.settings gid j (get s gid) patch)

  -- `switchVoice` with a name that is not blank.
  lookup-switch_voice :
      (name j : String) (on : Bool) (cs : Option (List String)) (d : Edit)
      → trim name ≢ ""
      → is_some (lookup j (switch_voice trim name on cs d).voices)
        ≡ (if name == j then on else is_some (lookup j d.voices))
  unfolding switch_voice
  lookup-switch_voice name j on cs d full =
      let ne : (trim name == "") ≡ false = ground (arith, eq_iff (trim name) "") in
      elim (Bool-cases on) [
        | inl t ↦ rw (ne, t) (rw lookup-insert (ground arith))
        | inr f ↦ rw (ne, f) (rw lookup-remove (ground arith))
      ]

  patch_duty-some :
      (duty : String) (d : Edit)
      → trim duty ≢ ""
      → ((patch_duty trim (some (some duty)) d).duty ≡ some duty)
        × (is_some (lookup duty (patch_duty trim (some (some duty)) d).voices) ≡ true)
  unfolding patch_duty
  patch_duty-some duty d full =
      let ne : (trim duty == "") ≡ false = ground (arith, eq_iff (trim duty) "") in
      rw ne (refl, rw (lookup-switch_voice duty duty true none d full, eq_refl duty))

  module _ (written : Bool) (s : GroupSettingsStore) (gid : String)
      (patch : GroupSettingsPatch) where
    abbrev after : GroupSettingsStore
    after = (set trim written s gid patch).0

    abbrev edit : Edit
    edit = patched trim (get s gid) patch

    voice_on-set : (name : String) → voice_on after gid name ≡ is_some (lookup name edit.voices)
    unfolding voice_on
    voice_on-set name = rw (get-set written s gid gid patch, eq_refl gid, get_or-some_voices)

    duty_of-set : duty_of after gid ≡ duty_in edit.voices edit.duty
    unfolding duty_of
    duty_of-set =
        let e : get after gid
            ≡ entry_of edit.voices (duty_in edit.voices edit.duty)
                (get_or (patch_over patch.muted (get s gid).muted) false) =
          get-set written s gid gid patch ∙ rw (eq_refl gid) in
        ap (λ (x : GroupSettings). x.duty) e

    -- A patch of one group changes the settings of no other.
    pub get-set_ne : (j : String) → gid ≢ j → get after j ≡ get s j
    get-set_ne j h = get-set written s gid j patch ∙ ground (arith, eq_iff gid j)

    -- A patch that puts a voice on duty, whose name is not blank, leaves that voice on duty and
    -- switched on, whatever else the patch says.
    pub set-duty :
        (duty : String)
        → trim duty ≢ ""
        → patch.duty ≡ some (some duty)
        → (duty_of after gid ≡ some duty) × (voice_on after gid duty ≡ true)
    set-duty duty full e =
        let before = patch_voice trim patch.voice (
          patch_mode trim patch.mode (
            patch_alter trim patch.alter
              (record { voices = voices_of (get s gid); duty = (get s gid).duty }))) in
        let made : edit ≡ patch_duty trim (some (some duty)) before = unfold patched in rw e in
        let (on_duty, there) = patch_duty-some duty before full in
        (duty_of-set ∙ rw (made, on_duty, there), voice_on-set duty ∙ rw (made, there))

    -- A patch that switches a voice off, whose name is not blank, and does not speak of duty takes the
    -- voice out of the group and off duty.
    pub set-voice_off :
        (v : VoiceSwitch)
        → trim v.name ≢ ""
        → patch.voice ≡ some v
        → v.on ≡ false
        → patch.duty ≡ none
        → (voice_on after gid v.name ≡ false) × (duty_of after gid ≢ some v.name)
    set-voice_off v full e off no_duty =
        let before = patch_mode trim patch.mode (
          patch_alter trim patch.alter
            (record { voices = voices_of (get s gid); duty = (get s gid).duty })) in
        let made : edit ≡ switch_voice trim v.name v.on v.commanders before =
          unfold patched in rw (e, no_duty) in
        let absent : is_some (lookup v.name edit.voices) ≡ false = rw made (
          lookup-switch_voice v.name v.name v.on v.commanders before full
          ∙ rw (eq_refl v.name) off) in
        (
          voice_on-set v.name ∙ absent,
          rw duty_of-set (duty_in-ne v.name edit.voices edit.duty absent),
        )

    -- A patch with the mode `always` of older clients, and neither a voice nor a duty, puts the alter
    -- on duty and switches it on.
    pub set-always :
        trim voice_alter ≢ ""
        → patch.mode ≡ some always
        → patch.voice ≡ none
        → patch.duty ≡ none
        → (mode_of after gid ≡ always) × (alter_on after gid ≡ true)
    set-always full e no_voice no_duty =
        let before =
          patch_alter trim patch.alter
            (record { voices = voices_of (get s gid); duty = (get s gid).duty }) in
        let made : edit
            ≡ record (switch_voice trim voice_alter true none before) { duty = some voice_alter } =
          unfold patched in rw (e, no_voice, no_duty) in
        let there : is_some (lookup voice_alter edit.voices) ≡ true = rw made (
          lookup-switch_voice voice_alter voice_alter true none before full
          ∙ rw (eq_refl voice_alter)) in
        let on_duty : duty_of after gid ≡ some voice_alter =
          duty_of-set
          ∙ duty_in_of_some voice_alter edit.voices edit.duty (ap (λ (d : Edit). d.duty) made)
              there in
        (
          mode_of_lem after gid ∙ rw on_duty,
          alter_on_lem after gid ∙ voice_on-set voice_alter ∙ there,
        )
