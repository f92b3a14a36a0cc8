-- ===== src/Inbox.antt =====
-- dsh/packages/dsh/src/client/inbox-state.ts: the friends, groups, requests and drafts that the
-- browser shows, with the records of client/api.ts. Counts and times are whole and not negative.
pub mod Frames
pub mod Local
pub mod Unread
pub mod Valid
pub mod Badges
mod Tests
use soulnet.Prelude.{ℕ, ◌+◌, String, Bool, true, false, not, ◌&&◌, ltb}
use soulnet.Prelude.{Option, none, some, List, [], ◌∷◌, ◌++◌, ◌==◌, filter, get_or, is_some}
use soulnet.Prelude.{if◌then◌else◌, map, find}
use soulnet.Prelude.Dict.{Dict, lookup, insert}
use soulnet.Json.{Json}
use soulnet.Policy.{ReplyTier}
use soulnet.Drafts.{PendingDraft, counts_from}

pub record ApiFriend : Type 0 where
  pub fp : String
  pub name : String
  pub remark : Option String
  pub card_name : Option String
  pub online : Option Bool
  pub unread : ℕ
  pub count : ℕ
  pub last_ts : Option ℕ
  pub last_body : Option String
  pub typing : Option Bool
  pub muted : Option Bool
  pub protocol : Option String
  pub tier : Option ReplyTier
  pub tier_explicit : Option Bool
  pub drafts : Option ℕ

-- `profile` is passed on as it is.
pub record ApiGroup : Type 0 where
  pub gid : String
  pub name : String
  pub owner_fp : String
  pub mine : Bool
  pub version : ℕ
  pub members : ℕ
  pub unread : ℕ
  pub count : ℕ
  pub last_ts : Option ℕ
  pub last_body : Option String
  pub muted : Option Bool
  pub profile : Option Json

pub record ApiPending : Type 0 where
  pub id : String
  pub fp : String
  pub name : String
  pub greeting : String
  pub created_at : Option String

-- An `ApiDraft` has the keys of a `PendingDraft`, which the host sends as it is.
pub record InboxState : Type 0 where
  pub friends : List ApiFriend
  pub groups : List ApiGroup
  pub pending : List ApiPending
  pub drafts : List PendingDraft
  pub alter_session_id : Option String
  pub typing : Dict Bool
  pub group_apps : Dict ℕ

pub record MailNotice : Type 0 where
  pub id : String
  pub fp : String
  pub gid : Option String
  pub name : String
  pub body : String
  pub ts : ℕ
  pub session_id : Option String

abbrev pub empty_inbox : InboxState
empty_inbox = record {
  friends = [];
  groups = [];
  pending = [];
  drafts = [];
  alter_session_id = none;
  typing = [];
  group_apps = [];
}

-- What a friend adds to the badge: `f.unread > 0 && f.muted !== true ? f.unread : 0`
abbrev pub badge_of : ApiFriend → ℕ
badge_of f = if ltb 0 f.unread && not (get_or f.muted false) then f.unread else 0

unfoldable pub unread_from : ℕ → List ApiFriend → ℕ
unread_from total [] = total
unread_from total (f ∷ fs) = unread_from (total + badge_of f) fs

unfoldable pub unread_total : List ApiFriend → ℕ
unfolding unread_from
unread_total friends = unread_from 0 friends

unfoldable pub drafts_for : InboxState → String → List PendingDraft
drafts_for state fp = filter (λ d. d.fp == fp) state.drafts

unfoldable pub without_drafts : ApiFriend → ApiFriend
without_drafts f = if is_some f.drafts then record f { drafts = none } else f

unfoldable pub patch_friend : List ApiFriend → String → (ApiFriend → ApiFriend) → List ApiFriend
patch_friend [] fp patch = []
patch_friend (f ∷ fs) fp patch = (if f.fp == fp then patch f else f) ∷ patch_friend fs fp patch

unfoldable pub patch_group : List ApiGroup → String → (ApiGroup → ApiGroup) → List ApiGroup
patch_group [] gid patch = []
patch_group (g ∷ gs) gid patch = (if g.gid == gid then patch g else g) ∷ patch_group gs gid patch

-- The part of the answer of `/state` that is read here.
pub record ApiState : Type 0 where
  pub friends : List ApiFriend
  pub pending : List ApiPending
  pub groups : Option (List ApiGroup)
  pub drafts : Option (List PendingDraft)
  pub alter_session_id : Option String

-- `new Map(previous.friends.map(f => [f.fp, f.online]))`: the last row of a friend counts.
known_presence : Dict (Option Bool) → List ApiFriend → Dict (Option Bool)
known_presence known [] = known
known_presence known (f ∷ fs) = known_presence (insert f.fp f.online known) fs

-- The row of `f`, given what the two maps have for it.
unfoldable pub fresh_row : Option ℕ → Option Bool → ApiFriend → ApiFriend
unfolding without_drafts
fresh_row n was f =
    let row = if is_some n then record f { drafts = n } else without_drafts f in
    if is_some row.online then row else (if is_some was then record row { online = was } else row)

unfoldable pub from_api_state : InboxState → ApiState → InboxState
unfolding known_presence fresh_row counts_from
from_api_state previous state =
    let known = known_presence [] previous.friends in
    let drafts = get_or state.drafts [] in
    let counts = counts_from [] drafts in
    record {
      friends =
          map (λ f. fresh_row (lookup f.fp counts) (get_or (lookup f.fp known) none) f)
            state.friends;
      groups = get_or state.groups [];
      pending = state.pending;
      drafts = drafts;
      alter_session_id = state.alter_session_id;
      typing = previous.typing;
      group_apps = previous.group_apps;
    }
