-- ===== src/FriendSettings/Laws.antt =====
-- What `set` of friend-settings.ts changes, and what a restart reads back.
use soulnet.Prelude.{String, Bool, true, false, none, some, [], ◌∷◌, ◌==◌, ◌≡◌}
use soulnet.Prelude.{
  refl, ◌∙◌, arith, eq_iff, eq_refl, if◌then◌else◌, get_or, is_some, Option-cases, inl, inr,
}
use soulnet.Prelude.Dict.{Dict, lookup, Distinct}
use soulnet.Prelude.Dict.{
  lookup-insert, lookup-remove, insert-Distinct, remove-Distinct, lookup-collect,
}
use soulnet.Json.{Json, entries-of_entries, object_entries, key_of, is_true, get_field}
use soulnet.Policy.{ReplyTier, notify, draft, auto, tier_text, normalize_tier}
use soulnet.FriendSettings.{
  FriendSettings, FriendSettingsStore, Patch, read_entry, friends_of_file, load, get, tier,
  entry_to_json, friends_to_json, to_json, save, over, friends_after, set,
}

friends-save : (written : Bool) (s : FriendSettingsStore) → (save written s).friends ≡ s.friends
unfolding save
friends-save true s = refl
friends-save false s = refl

lookup-friends_after :
    (m : Dict FriendSettings) (fp j : String) (current next : FriendSettings)
    → lookup j (friends_after m fp current next) ≡ (
        if fp == j
        then (if is_some next.tier
            then some (record { tier = next.tier; muted = over next.muted current.muted })
            else (if is_some next.muted
                then some (record { tier = current.tier; muted = next.muted })
                else none))
        else lookup j m)
unfolding friends_after
lookup-friends_after m fp j current next = ground (
  arith,
  lookup-remove fp j m,
  lookup-insert fp j
      (record { tier = over next.tier current.tier; muted = over next.muted current.muted }) m,
)

-- `set` leaves every other friend as it was. The friend's tier becomes the tier of the patch, and is
-- left alone by a patch without a tier. A patch that clears the tier has the friend read the default
-- again only if no mute switch is stored afterwards: otherwise the old tier stays.
pub tier-set :
    (written : Bool) (s : FriendSettingsStore) (fp j : String) (patch : Patch)
    (fallback : ReplyTier)
    → tier (set written s fp patch).0 j fallback ≡ (
        if fp == j
        then (elim patch.tier [
          | none ↦ tier s j fallback
          | some (some t) ↦ t
          | some none ↦
              if is_some (over patch.muted (get s fp).muted) then tier s j fallback else fallback
        ])
        else tier s j fallback)
unfolding set tier get
tier-set written s fp j patch fallback =
    let current = get s fp in
    let next : FriendSettings = record {
      tier = get_or patch.tier current.tier;
      muted = over patch.muted current.muted;
    } in
    let after = friends_after s.friends fp current next in
    ground (
      arith,
      eq_iff fp j,
      friends-save written (record s { friends = after }),
      lookup-friends_after s.friends fp j current next,
    )

-- The string of a tier names it.
normalize_tier-tier_text :
    (t fallback : ReplyTier) → normalize_tier (some (Json.str (tier_text t))) fallback ≡ t
unfolding normalize_tier tier_text
normalize_tier-tier_text notify fallback = refl
normalize_tier-tier_text draft fallback = refl
normalize_tier-tier_text auto fallback = refl

-- An entry after a restart: a mute switch that is off is not kept.
abbrev pub reread : FriendSettings → FriendSettings
reread e = record e { muted = if get_or e.muted false then some true else none }

read_entry-entry_to_json : (e : FriendSettings) → read_entry (entry_to_json e) ≡ some (reread e)
unfolding read_entry entry_to_json key_of get_field is_true
read_entry-entry_to_json e = ground (arith, normalize_tier-tier_text (get_or e.tier draft) draft)

lookup-friends_to_json :
    (j : String) (m : Dict FriendSettings)
    → lookup j (friends_to_json m)
      ≡ (elim (lookup j m) [ none ↦ none | some e ↦ some (entry_to_json e) ])
unfolding lookup friends_to_json
lookup-friends_to_json j [] = refl
lookup-friends_to_json j ((k, e) ∷ m) = ground (arith, lookup-friends_to_json j m)

friends_to_json-Distinct : (m : Dict FriendSettings) → Distinct m → Distinct (friends_to_json m)
unfolding friends_to_json
friends_to_json-Distinct [] h = tt
friends_to_json-Distinct ((k, e) ∷ m) h =
    (rw (lookup-friends_to_json k m, h.0), friends_to_json-Distinct m h.1)

-- Every friend reads after a restart what was in memory when the file was written.
lookup-reload :
    (j : String) (m : Dict FriendSettings)
    → Distinct m
    → lookup j (friends_of_file (some (to_json m)))
      ≡ (elim (lookup j m) [ none ↦ none | some e ↦ some (reread e) ])
unfolding friends_of_file to_json key_of get_field object_entries
lookup-reload j m h =
    let es = friends_to_json m in
    rw
      (
        entries-of_entries es,
        lookup-collect read_entry j es (friends_to_json-Distinct m h),
        lookup-friends_to_json j m,
      )
      (elim (Option-cases (lookup j m)) [
        | inl e ↦ rw e
        | inr (x, e) ↦ rw e (read_entry-entry_to_json x)
      ])

friends_after-Distinct :
    (m : Dict FriendSettings) (fp : String) (current next : FriendSettings)
    → Distinct m
    → Distinct (friends_after m fp current next)
unfolding friends_after
friends_after-Distinct m fp current next h = ground (
  arith,
  remove-Distinct fp m h,
  insert-Distinct fp
      (record { tier = over next.tier current.tier; muted = over next.muted current.muted }) m h,
)

get-load :
    (s : FriendSettingsStore) (j : String)
    → Distinct s.friends
    → s.file ≡ some (to_json s.friends)
    → get (load s) j ≡ reread (get s j)
unfolding load get
get-load s j h saved =
    rw (saved, lookup-reload j s.friends h)
      (elim (Option-cases (lookup j s.friends)) [ inl e ↦ rw e | inr (x, e) ↦ rw e ])

-- After a `set` whose write was carried out, a restart changes the settings of no friend, except
-- that a mute switch that is off reads as absent.
pub load-set :
    (s : FriendSettingsStore) (fp j : String) (patch : Patch)
    → Distinct s.friends
    → get (load (set true s fp patch).0) j ≡ reread (get (set true s fp patch).0 j)
unfolding set save
load-set s fp j patch h =
    get-load (set true s fp patch).0 j (friends_after-Distinct s.friends fp _ _ h) refl

-- A friend with a stored tier and a stored mute switch keeps the tier when it is cleared.
pub set-tier_kept :
    (written : Bool) (s : FriendSettingsStore) (fp : String) (t fallback : ReplyTier) (m : Bool)
    → get s fp ≡ record { tier = some t; muted = some m }
    → tier (set written s fp (record { tier = some none; muted = none })).0 fp fallback ≡ t
unfolding tier
set-tier_kept written s fp t fallback m h = tier-set written s fp fp _ fallback ∙ rw (eq_refl fp, h)
