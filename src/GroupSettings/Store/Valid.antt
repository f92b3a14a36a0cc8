-- ===== src/GroupSettings/Store/Valid.antt =====
-- The form of the entries of group-settings.ts, which every patch preserves.
use soulnet.Prelude.{String, Bool, true, false, Option, none, some, List, [], ◌∷◌}
use soulnet.Prelude.{◌==◌, ◌≡◌, ◌≢◌, refl, ap, sym, subst, arith, eq_iff, get_or, is_some, equals}
use soulnet.Prelude.{All, Bool-cases, Option-cases, inl, inr, ◌&&◌, not}
use soulnet.Prelude.Dict.{Dict, lookup, Distinct}
use soulnet.Prelude.Dict.{insert-Distinct, remove-Distinct, All-insert, All-remove, All-lookup}
use soulnet.GroupSettings.{
  voice_alter, GroupVoiceSetting, GroupSettings, unless_nil, duty_in, entry_of, some_voices,
  true_only, is_nil, no_settings,
}
use soulnet.GroupSettings.Commanders.{IsWhitelist, normalize_commanders-IsWhitelist}
use soulnet.GroupSettings.Store.{
  GroupSettingsStore, GroupSettingsPatch, GroupAlterMode, VoiceSwitch, mention, always, Edit,
  voices_of, get, save, kept_commanders, switch_voice, patch_alter, patch_mode, patch_voice,
  patch_duty, patched, patch_over, settings_after, set,
}

module _ (trim : String → String) where
  -- A stored whitelist is never the empty list.
  abbrev pub IsCommanders : Option (List String) → Type 0
  IsCommanders none = Unit
  IsCommanders (some cs) = IsWhitelist trim cs × (cs ≢ [])

  pub record IsVoice (v : String × GroupVoiceSetting) : Type 0 where
    pub named : trim v.0 ≢ ""
    pub commanders : IsCommanders v.1.commanders

  abbrev pub AreVoices : Dict GroupVoiceSetting → Type 0
  AreVoices vs = All IsVoice vs × Distinct vs

  -- The voice on duty takes part.
  abbrev pub OnDuty : Dict GroupVoiceSetting → Option String → Type 0
  OnDuty vs none = Unit
  OnDuty vs (some duty) = is_some (lookup duty vs) ≡ true

  -- An entry in the form that is stored: no empty part, no mute switch that is off, every voice
  -- with a name that is not blank and a whitelist in form, and a duty that takes part.
  pub record IsEntry (e : GroupSettings) : Type 0 where
    pub voices : AreVoices (voices_of e)
    pub duty : OnDuty (voices_of e) e.duty
    pub some_voice : e.voices ≢ some []
    pub muted : e.muted ≢ some false
    pub some_key : e ≢ no_settings

  abbrev pub IsValid : Dict GroupSettings → Type 0
  IsValid m = All (λ e. IsEntry e.1) m × Distinct m

pub settings-save :
    (written : Bool) (s : GroupSettingsStore) → (save written s).settings ≡ s.settings
unfolding save
settings-save true s = refl
settings-save false s = refl

pub get_or-some_voices : (vs : Dict GroupVoiceSetting) → get_or (some_voices vs) [] ≡ vs
get_or-some_voices [] = refl
get_or-some_voices (v ∷ vs) = refl

module _ (trim : String → String) (trim_idem : (s : String) → trim (trim s) ≡ trim s) where
  unless_nil-IsCommanders :
      (cs : List String) → IsWhitelist trim cs → IsCommanders trim (unless_nil cs)
  unless_nil-IsCommanders [] h = tt
  unless_nil-IsCommanders (c ∷ cs) h = (h, λ e. cc)

  get_or-IsCommanders :
      (o : Option (List String))
      → IsCommanders trim o
      → IsCommanders trim (unless_nil (get_or o []))
  get_or-IsCommanders none h = tt
  get_or-IsCommanders (some cs) h = unless_nil-IsCommanders cs h.0

  kept_commanders-IsCommanders :
      (name : String) (vs : Dict GroupVoiceSetting) (cs : Option (List String))
      → AreVoices trim vs
      → IsCommanders trim (unless_nil (get_or (kept_commanders trim (lookup name vs) cs) []))
  kept_commanders-IsCommanders name vs (some cs) h =
      unless_nil-IsCommanders _ (normalize_commanders-IsWhitelist trim trim_idem _)
  kept_commanders-IsCommanders name vs none h = elim (Option-cases (lookup name vs)) [
    | inl e ↦ rw e tt
    | inr (v, e) ↦
        rw e
          (get_or-IsCommanders v.commanders (All-lookup (IsVoice trim) name vs v h.0 e).commanders)
  ]

  switch_voice-AreVoices :
      (name : String) (on : Bool) (cs : Option (List String)) (d : Edit)
      → AreVoices trim d.voices
      → AreVoices trim (switch_voice trim name on cs d).voices
  unfolding switch_voice
  switch_voice-AreVoices name on cs d h = elim (Bool-cases (trim name == "")) [
    | inl blank ↦ rw blank h
    | inr full ↦ elim (Bool-cases on) [
      | inl t ↦
          rw (full, t)
            (
              All-insert (IsVoice trim) name _ d.voices
                  (record {
                    named = ground (arith, eq_iff (trim name) "");
                    commanders = kept_commanders-IsCommanders name d.voices cs h;
                  })
                  h.0,
              insert-Distinct name _ d.voices h.1,
            )
      | inr f ↦
          rw (full, f)
            (All-remove (IsVoice trim) name d.voices h.0, remove-Distinct name d.voices h.1)
    ]
  ]

  patch_alter-AreVoices :
      (o : Option Bool) (d : Edit)
      → AreVoices trim d.voices
      → AreVoices trim (patch_alter trim o d).voices
  unfolding patch_alter
  patch_alter-AreVoices none d h = h
  patch_alter-AreVoices (some on) d h = switch_voice-AreVoices voice_alter on none d h

  patch_mode-AreVoices :
      (o : Option GroupAlterMode) (d : Edit)
      → AreVoices trim d.voices
      → AreVoices trim (patch_mode trim o d).voices
  unfolding patch_mode
  patch_mode-AreVoices none d h = h
  patch_mode-AreVoices (some always) d h = switch_voice-AreVoices voice_alter true none d h
  patch_mode-AreVoices (some mention) d h = elim (Bool-cases (equals d.duty voice_alter)) [
    | inl t ↦ rw t h
    | inr f ↦ rw f h
  ]

  patch_voice-AreVoices :
      (o : Option VoiceSwitch) (d : Edit)
      → AreVoices trim d.voices
      → AreVoices trim (patch_voice trim o d).voices
  unfolding patch_voice
  patch_voice-AreVoices none d h = h
  patch_voice-AreVoices (some v) d h = switch_voice-AreVoices v.name v.on v.commanders d h

  patch_duty-AreVoices :
      (o : Option (Option String)) (d : Edit)
      → AreVoices trim d.voices
      → AreVoices trim (patch_duty trim o d).voices
  unfolding patch_duty
  patch_duty-AreVoices none d h = h
  patch_duty-AreVoices (some none) d h = h
  patch_duty-AreVoices (some (some duty)) d h = elim (Bool-cases (trim duty == "")) [
    | inl blank ↦ rw blank h
    | inr full ↦ rw full (switch_voice-AreVoices duty true none d h)
  ]

  patched-AreVoices :
      (current : GroupSettings) (patch : GroupSettingsPatch)
      → AreVoices trim (voices_of current)
      → AreVoices trim (patched trim current patch).voices
  unfolding patched
  patched-AreVoices current patch h = patch_duty-AreVoices patch.duty _ (
      patch_voice-AreVoices patch.voice _
        (patch_mode-AreVoices patch.mode _ (patch_alter-AreVoices patch.alter _ h)))

  duty_in-OnDuty : (vs : Dict GroupVoiceSetting) (o : Option String) → OnDuty trim vs (duty_in vs o)
  duty_in-OnDuty vs none = tt
  duty_in-OnDuty vs (some duty) = elim (Bool-cases (is_some (lookup duty vs))) [
    | inl there ↦ rw there there
    | inr absent ↦ rw absent tt
  ]

  some_voices-ne : (vs : Dict GroupVoiceSetting) → some_voices vs ≢ some []
  some_voices-ne [] e = cc
  some_voices-ne (v ∷ vs) e = ground arith

  entry_of-ne :
      (vs : Dict GroupVoiceSetting) (duty : Option String) (muted : Bool)
      → (is_nil vs && not (is_some duty) && not muted) ≡ false
      → entry_of vs duty muted ≢ no_settings
  entry_of-ne [] duty muted kept e =
      let no_duty : duty ≡ none = ap (λ (x : GroupSettings). x.duty) e in
      let not_muted : true_only muted ≡ none = ap (λ (x : GroupSettings). x.muted) e in ground arith
  entry_of-ne (v ∷ vs) duty muted kept e =
      let no_voices : some (v ∷ vs) ≡ none = ap (λ (x : GroupSettings). x.voices) e in cc

  -- An entry that has a key is in form.
  entry_of-IsEntry :
      (vs : Dict GroupVoiceSetting) (o : Option String) (muted : Bool)
      → (is_nil vs && not (is_some (duty_in vs o)) && not muted) ≡ false
      → AreVoices trim vs
      → IsEntry trim (entry_of vs (duty_in vs o) muted)
  entry_of-IsEntry vs o muted kept h = record {
    voices = subst (AreVoices trim) (sym (get_or-some_voices vs)) h;
    duty =
        subst (λ l. OnDuty trim l (duty_in vs o)) (sym (get_or-some_voices vs))
          (duty_in-OnDuty vs o);
    some_voice = some_voices-ne vs;
    muted = ground arith;
    some_key = entry_of-ne vs (duty_in vs o) muted kept;
  }

  settings_after-IsValid :
      (m : Dict GroupSettings) (gid : String) (current : GroupSettings) (patch : GroupSettingsPatch)
      → AreVoices trim (voices_of current)
      → IsValid trim m
      → IsValid trim (settings_after trim m gid current patch)
  unfolding settings_after
  settings_after-IsValid m gid current patch h valid =
      let d = patched trim current patch in
      let duty = duty_in d.voices d.duty in
      let muted = get_or (patch_over patch.muted current.muted) false in
      elim (Bool-cases (is_nil d.voices && not (is_some duty) && not muted)) [
        | inl empty ↦
            rw empty
              (All-remove (λ e. IsEntry trim e.1) gid m valid.0, remove-Distinct gid m valid.1)
        | inr kept ↦
            let entry =
              entry_of-IsEntry d.voices d.duty muted kept (patched-AreVoices current patch h) in
            rw kept (
              All-insert (λ e. IsEntry trim e.1) gid _ m entry valid.0,
              insert-Distinct gid _ m valid.1,
            )
      ]

  get-AreVoices :
      (s : GroupSettingsStore) (gid : String)
      → IsValid trim s.settings
      → AreVoices trim (voices_of (get s gid))
  unfolding get
  get-AreVoices s gid valid = elim (Option-cases (lookup gid s.settings)) [
    | inl e ↦ rw e (tt, tt)
    | inr (v, e) ↦ rw e (All-lookup (λ e. IsEntry trim e.1) gid s.settings v valid.0 e).voices
  ]

  -- Every patch of any group keeps the settings in form: each group once, each voice once and with a
  -- name that is not blank, each whitelist in the form of `normalizeCommanders`, the voice on duty
  -- among those that are on, and no entry that says nothing.
  pub set-IsValid :
      (written : Bool) (s : GroupSettingsStore) (gid : String) (patch : GroupSettingsPatch)
      → IsValid trim s.settings
      → IsValid trim (set trim written s gid patch).0.settings
  unfolding set
  set-IsValid written s gid patch valid =
      rw (settings-save written _)
        (settings_after-IsValid s.settings gid (get s gid) patch (get-AreVoices s gid valid) valid)
