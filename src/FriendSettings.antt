-- ===== src/FriendSettings.antt =====
-- dsh/packages/dsh/src/friend-settings.ts, `FriendSettingsStore`: the reply tier and the mute switch
-- of each friend, in memory and written through to a file. The file is the value that `JSON.parse`
-- answers, `none` if that throws. Whether the host carries a write out is an argument; a failed
-- write rejects the promise, here the result `none`, after the memory has changed.
pub mod Laws
mod Tests
use soulnet.Prelude.{String, Bool, true, false, Option, none, some, List, [], ◌∷◌, map}
use soulnet.Prelude.{if◌then◌else◌, get_or, is_some, ◌&&◌, not}
use soulnet.Prelude.Dict.{Dict, lookup, insert, remove, collect}
use soulnet.Json.{Json, null, bool, str, obj, Fields, of_entries, object_entries, key_of, is_true}
use soulnet.Policy.{ReplyTier, default_reply_tier, normalize_tier, tier_text}

pub record FriendSettings : Type 0 where
  pub tier : Option ReplyTier
  pub muted : Option Bool

abbrev pub no_settings : FriendSettings
no_settings = record { tier = none; muted = none }

pub record FriendSettingsStore : Type 0 where
  pub friends : Dict FriendSettings
  pub loaded : Bool
  pub file : Option Json

-- `v['tier'] === undefined ? {} : { tier: normalizeTier(v['tier']) }`
read_tier : Option Json → Option ReplyTier
read_tier none = none
read_tier (some v) = some (normalize_tier (some v) default_reply_tier)

read_entry : Json → Option FriendSettings
unfolding read_tier
read_entry v = some (record {
  tier = read_tier (key_of "tier" v);
  muted = if is_true (key_of "muted" v) then some true else none;
})

-- `raw.friends ?? {}`
friends_of : Option Json → Dict Json
friends_of none = []
friends_of (some null) = []
friends_of (some v) = object_entries v

unfoldable pub friends_of_file : Option Json → Dict FriendSettings
unfolding read_entry friends_of
friends_of_file none = []
friends_of_file (some raw) = collect read_entry [] (friends_of (key_of "friends" raw))

unfoldable pub load : FriendSettingsStore → FriendSettingsStore
unfolding friends_of_file
load s = record s { friends = friends_of_file s.file; loaded = true }

unfoldable pub get : FriendSettingsStore → String → FriendSettings
get s fp = get_or (lookup fp s.friends) no_settings

-- `friends[fp]?.tier ?? fallback`
unfoldable pub tier : FriendSettingsStore → String → ReplyTier → ReplyTier
unfolding get
tier s fp fallback = get_or (get s fp).tier fallback

-- What `JSON.stringify` writes: a key that is left out is not written.
entry_to_json : FriendSettings → Json
entry_to_json e = elim e.tier [
  | none ↦ elim e.muted [
    | none ↦ obj Fields.end
    | some m ↦ obj (Fields.field "muted" (bool m) Fields.end)
  ]
  | some t ↦ elim e.muted [
    | none ↦ obj (Fields.field "tier" (str (tier_text t)) Fields.end)
    | some m ↦
        obj (Fields.field "tier" (str (tier_text t)) (Fields.field "muted" (bool m) Fields.end))
  ]
]

friends_to_json : Dict FriendSettings → Dict Json
friends_to_json [] = []
friends_to_json ((fp, e) ∷ m) = (fp, entry_to_json e) ∷ friends_to_json m

unfoldable pub to_json : Dict FriendSettings → Json
unfolding entry_to_json friends_to_json
to_json m = obj (Fields.field "friends" (obj (of_entries (friends_to_json m))) Fields.end)

save : Bool → FriendSettingsStore → FriendSettingsStore
save written s = if written then record s { file = some (to_json s.friends) } else s

-- `none` for a key that the patch does not have; `tier: undefined` is `some none`.
pub record Patch : Type 0 where
  pub tier : Option (Option ReplyTier)
  pub muted : Option Bool

-- `{ ...current, ...next }`: a key that `next` lacks keeps its current value.
abbrev pub over {ℓ} : {A : Type ℓ} → Option A → Option A → Option A
over none current = current
over (some a) current = some a

-- The new map: `next` holds the keys that have a value, and an empty `next` deletes the entry.
friends_after : Dict FriendSettings → String → FriendSettings → FriendSettings → Dict FriendSettings
friends_after m fp current next =
    if not (is_some next.tier) && not (is_some next.muted)
    then remove fp m
    else insert fp
        (record { tier = over next.tier current.tier; muted = over next.muted current.muted }) m

unfoldable pub set :
    Bool → FriendSettingsStore → String → Patch → FriendSettingsStore × Option FriendSettings
unfolding get save friends_after
set written s fp patch =
    let current = get s fp in
    let next : FriendSettings = record {
      tier = get_or patch.tier current.tier;
      muted = over patch.muted current.muted;
    } in
    let s' = save written (record s { friends = friends_after s.friends fp current next }) in
    (s', if written then some (get s' fp) else none)

unfoldable pub remove_friend :
    Bool → FriendSettingsStore → String → FriendSettingsStore × Option (Unit {0})
unfolding save
remove_friend written s fp =
    if is_some (lookup fp s.friends)
    then (
      save written (record s { friends = remove fp s.friends }),
      if written then some tt else none,
    )
    else (s, some tt)
