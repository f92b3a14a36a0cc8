-- ===== src/Inbox/Frames.antt =====
-- dsh/packages/dsh/src/client/inbox-state.ts, `applyFrame`: one event of the plugin folded into the
-- state. The frames are those of client/api.ts, with the keys that are read of a message.
use soulnet.Prelude.{ℕ, zero, suc, ◌+◌, String, Bool, not, leb}
use soulnet.Prelude.{Option, none, some, List, [], ◌∷◌, ◌++◌, ◌==◌, filter, get_or, length}
use soulnet.Prelude.{if◌then◌else◌, any, find}
use soulnet.Prelude.Dict.{lookup, insert}
use soulnet.Json.{Json}
use soulnet.Drafts.{PendingDraft}
use soulnet.FriendSettings.{over}
use soulnet.Inbox.{
  ApiFriend, ApiGroup, ApiPending, InboxState, MailNotice, without_drafts, patch_friend,
  patch_group,
}

pub record FrameMessage : Type 0 where
  pub id : String
  pub from : String
  pub name : String
  pub body : String
  pub ts : ℕ

pub record ApiEntry : Type 0 where
  pub seq : ℕ
  pub outgoing : Bool
  pub id : String
  pub body : String
  pub ts : ℕ
  pub from : Option String
  pub type : Option String
  pub auto : Option Bool
  pub by : Option String
  pub agent : Option String
  pub status : Option String
  pub artifact_name : Option String

pub data DraftAction : Type 0 where
  added removed : DraftAction

pub data NetworkEventFrame : Type 0 where
  message : FrameMessage → NetworkEventFrame
  outbound : String → ApiEntry → NetworkEventFrame
  typing : String → Bool → NetworkEventFrame
  friend_request : ApiPending → NetworkEventFrame
  friend_accept : ApiFriend → NetworkEventFrame
  presence : String → Bool → NetworkEventFrame
  status alter agent group_typing memory : Json → NetworkEventFrame
  draft : DraftAction → PendingDraft → NetworkEventFrame
  group_message : String → FrameMessage → NetworkEventFrame
  group_update : String → NetworkEventFrame
  group_outbound : String → ApiEntry → NetworkEventFrame
  group_application : String → NetworkEventFrame

abbrev pub knows : List ApiFriend → String → Bool
knows fs fp = any (λ f. f.fp == fp) fs

abbrev pub friend_named : List ApiFriend → String → Option ApiFriend
friend_named fs fp = find (λ f. f.fp == fp) fs

abbrev pub take_mail : FrameMessage → ApiFriend → ApiFriend
take_mail m f = record f {
  unread = f.unread + 1;
  count = f.count + 1;
  last_ts = some m.ts;
  last_body = some m.body;
}

-- The row for mail of a friend who is not in the list.
abbrev pub provisional : FrameMessage → ApiFriend
provisional m = record {
  fp = m.from;
  name = m.name;
  remark = none;
  card_name = none;
  online = none;
  unread = 1;
  count = 1;
  last_ts = some m.ts;
  last_body = some m.body;
  typing = none;
  muted = none;
  protocol = none;
  tier = none;
  tier_explicit = none;
  drafts = none;
}

abbrev name_in : Option ApiFriend → String → String
name_in none name = name
name_in (some f) name = f.name

-- `{ ...f, ...g }`: every key that `g` has replaces the one of `f`.
abbrev pub merged : ApiFriend → ApiFriend → ApiFriend
merged f g = record {
  fp = g.fp;
  name = g.name;
  remark = over g.remark f.remark;
  card_name = over g.card_name f.card_name;
  online = over g.online f.online;
  unread = g.unread;
  count = g.count;
  last_ts = over g.last_ts f.last_ts;
  last_body = over g.last_body f.last_body;
  typing = over g.typing f.typing;
  muted = over g.muted f.muted;
  protocol = over g.protocol f.protocol;
  tier = over g.tier f.tier;
  tier_explicit = over g.tier_explicit f.tier_explicit;
  drafts = over g.drafts f.drafts;
}

abbrev pub take_outbound : ApiEntry → ApiFriend → ApiFriend
take_outbound e f =
    if leb (get_or f.last_ts 0) e.ts
    then record f { count = f.count + 1; last_ts = some e.ts; last_body = some e.body }
    else record f { count = f.count + 1 }

abbrev take_group_mail : FrameMessage → ApiGroup → ApiGroup
take_group_mail m g = record g {
  unread = g.unread + 1;
  count = g.count + 1;
  last_ts = some m.ts;
  last_body = some m.body;
}

abbrev take_group_outbound : ApiEntry → ApiGroup → ApiGroup
take_group_outbound e g =
    if leb (get_or g.last_ts 0) e.ts
    then record g { count = g.count + 1; last_ts = some e.ts; last_body = some e.body }
    else record g { count = g.count + 1 }

abbrev pub drafts_after : DraftAction → PendingDraft → List PendingDraft → List PendingDraft
drafts_after added d ds = filter (λ e. not (e.id == d.id)) ds ++ d ∷ []
drafts_after removed d ds = filter (λ e. not (e.id == d.id)) ds

-- `n === 0 ? withoutDrafts(f) : { ...f, drafts: n }`
unfoldable pub with_count : ℕ → ApiFriend → ApiFriend
unfolding without_drafts
with_count zero f = without_drafts f
with_count (suc n) f = record f { drafts = some (suc n) }

abbrev group_notice : Option ApiGroup → FrameMessage → String → Option String → Option MailNotice
group_notice none m gid session_id = none
group_notice (some g) m gid session_id = some (record {
  id = m.id;
  fp = m.from;
  gid = some gid;
  name = Prim.Native.String.◌++◌ m.name (Prim.Native.String.◌++◌ " · " g.name);
  body = m.body;
  ts = m.ts;
  session_id = session_id;
})

unfoldable pub apply_frame : InboxState → NetworkEventFrame → InboxState × Option MailNotice
unfolding patch_friend patch_group without_drafts with_count
apply_frame state (message m) = (
  record state {
    friends =
        if knows state.friends m.from
        then patch_friend state.friends m.from (take_mail m)
        else state.friends ++ provisional m ∷ [];
  },
  some (record {
    id = m.id;
    fp = m.from;
    gid = none;
    name = name_in (friend_named state.friends m.from) m.name;
    body = m.body;
    ts = m.ts;
    session_id = state.alter_session_id;
  }),
)
apply_frame state (typing fp on) = (record state { typing = insert fp on state.typing }, none)
apply_frame state (presence fp online) = (
  record state { friends = patch_friend state.friends fp (λ f. record f { online = some online }) },
  none,
)
apply_frame state (friend_accept friend) = (
  record state {
    friends =
        if knows state.friends friend.fp
        then patch_friend state.friends friend.fp (λ f. merged f friend)
        else state.friends ++ friend ∷ [];
    pending = filter (λ p. not (p.fp == friend.fp)) state.pending;
  },
  none,
)
apply_frame state (friend_request request) = (
  if any (λ p. p.id == request.id) state.pending
      then state
      else record state { pending = state.pending ++ request ∷ [] },
  none,
)
apply_frame state (outbound fp entry) =
    (record state { friends = patch_friend state.friends fp (take_outbound entry) }, none)
apply_frame state (draft action d) =
    let drafts = drafts_after action d state.drafts in
    let n = length (filter (λ e. e.fp == d.fp) drafts) in
    (
      record state { drafts = drafts; friends = patch_friend state.friends d.fp (with_count n) },
      none,
    )
apply_frame state (group_message gid m) = (
  record state { groups = patch_group state.groups gid (take_group_mail m) },
  group_notice (find (λ g. g.gid == gid) state.groups) m gid state.alter_session_id,
)
apply_frame state (group_outbound gid entry) =
    (record state { groups = patch_group state.groups gid (take_group_outbound entry) }, none)
apply_frame state (group_update gid) = (state, none)
apply_frame state (group_application gid) = (
  record state {
    group_apps = insert gid (get_or (lookup gid state.group_apps) 0 + 1) state.group_apps;
  },
  none,
)
apply_frame state (status s) = (state, none)
apply_frame state (alter s) = (state, none)
apply_frame state (agent s) = (state, none)
apply_frame state (group_typing s) = (state, none)
apply_frame state (memory s) = (state, none)
