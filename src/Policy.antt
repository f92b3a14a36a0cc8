-- ===== src/Policy.antt =====
-- dsh/packages/dsh/src/policy.ts: tiers, triggers, and the gates, which are pure functions of
-- records. A union of string literals is an enumeration; `DraftReason` joins the reasons of both
-- gates. A cap that may be zero or below is a signed number, a count is natural.
pub mod Group
mod Tests
pub mod Gates
pub mod Window
pub mod Caps
pub mod Mentions
use soulnet.Prelude.{ℕ, String, Bool, true, false, not, ◌&&◌, ◌||◌, Option, none, some, ◌==◌}
use soulnet.Prelude.{if◌then◌else◌, equals, get_or}
use soulnet.Prelude.Int.{ℤ, lt_count, is_positive}
use soulnet.Json.{Json, str}

pub data ReplyTier : Type 0 where
  notify draft auto : ReplyTier

abbrev pub default_reply_tier : ReplyTier
default_reply_tier = draft

abbrev pub is_notify : ReplyTier → Bool
is_notify notify = true
is_notify _ = false

abbrev pub is_draft : ReplyTier → Bool
is_draft draft = true
is_draft _ = false

-- The string that the source writes for a tier.
unfoldable pub tier_text : ReplyTier → String
tier_text notify = "notify"
tier_text draft = "draft"
tier_text auto = "auto"

-- The tier that a string names.
tier_named : String → Option ReplyTier
tier_named s =
    if s == "notify"
    then some notify
    else (if s == "draft" then some draft else (if s == "auto" then some auto else none))

-- `isReplyTier(value) ? value : fallback`
unfoldable pub normalize_tier : Option Json → ReplyTier → ReplyTier
unfolding tier_named
normalize_tier (some (str s)) fallback = get_or (tier_named s) fallback
normalize_tier _ fallback = fallback

pub data TriggerKind : Type 0 where
  owner inbound inbound_auto group unknown : TriggerKind

pub record TurnTrigger : Type 0 where
  pub kind : TriggerKind
  pub fp : Option String
  pub name : Option String
  pub message_id : Option String
  pub gid : Option String

abbrev pub unknown_turn_trigger : TurnTrigger
unknown_turn_trigger = record {
  kind = unknown;
  fp = none;
  name = none;
  message_id = none;
  gid = none;
}

pub data AppendReason : Type 0 where
  tier_notify loop_guard_auto not_a_friend : AppendReason

pub data InboundRoute : Type 0 where
  wake : InboundRoute
  append : AppendReason → InboundRoute

pub record RouteInboundInput : Type 0 where
  pub tier : ReplyTier
  pub auto : Bool
  pub is_friend : Bool

pub route_inbound : RouteInboundInput → InboundRoute
route_inbound input =
    if not input.is_friend
    then append not_a_friend
    else (if input.auto
        then append loop_guard_auto
        else (if is_notify input.tier then append tier_notify else wake))

pub data AllowReason : Type 0 where
  owner_initiated auto_tier : AllowReason

pub data DraftReason : Type 0 where
  draft_tier notify_tier rate_limited loop_guard_auto unknown_trigger other_friend : DraftReason
  group_trigger agent_rounds other_group : DraftReason

pub data SendDecision : Type 0 where
  allow : Bool → AllowReason → SendDecision
  draft : DraftReason → SendDecision

pub record SendGateInput : Type 0 where
  pub trigger : TurnTrigger
  pub target : String
  pub tier : ReplyTier
  pub auto_sent_in_window : ℕ
  pub limit : ℤ

-- The case 'inbound': the reply may go to the friend who wrote, and to no other.
abbrev names_other : Option String → String → Bool
names_other none target = false
names_other (some fp) target = not (fp == target)

inbound_gate : ReplyTier → ℕ → ℤ → SendDecision
inbound_gate ReplyTier.auto sent limit =
    if is_positive limit && lt_count sent limit then allow true auto_tier else draft rate_limited
inbound_gate ReplyTier.draft sent limit = draft draft_tier
inbound_gate ReplyTier.notify sent limit = draft notify_tier

unfoldable pub send_gate : SendGateInput → SendDecision
unfolding inbound_gate
send_gate input = elim input.trigger.kind [
  | TriggerKind.owner ↦ allow false owner_initiated
  | TriggerKind.inbound_auto ↦ draft loop_guard_auto
  | TriggerKind.inbound ↦
      if names_other input.trigger.fp input.target
      then draft other_friend
      else inbound_gate input.tier input.auto_sent_in_window input.limit
  | TriggerKind.group ↦ draft group_trigger
  | TriggerKind.unknown ↦ draft unknown_trigger
]
