-- ===== src/Policy/Group.antt =====
-- dsh/packages/dsh/src/policy.ts, the part about groups: who a group message wakes, and the gate of
-- a post.
use soulnet.Prelude.{ℕ, String, Bool, true, false, not, ◌&&◌, ◌||◌}
use soulnet.Prelude.{Option, none, some, ◌==◌}
use soulnet.Prelude.{if◌then◌else◌, equals, get_or}
use soulnet.Prelude.Int.{ℤ, lt_count, is_positive}
use soulnet.Json.{Json, str}
use soulnet.Policy.{ReplyTier, TurnTrigger, TriggerKind, AllowReason, DraftReason}

pub data GroupAgentWake : Type 0 where
  mention always never : GroupAgentWake

wake_named : String → Option GroupAgentWake
wake_named s =
    if s == "mention"
    then some mention
    else (if s == "always" then some always else (if s == "never" then some never else none))

unfoldable pub normalize_group_wake : Option Json → GroupAgentWake → GroupAgentWake
unfolding wake_named
normalize_group_wake (some (str s)) fallback = get_or (wake_named s) fallback
normalize_group_wake _ fallback = fallback

pub data WakeReason : Type 0 where
  self agents_muted alter_disabled wake_never not_mentioned voice_disabled : WakeReason
  not_commander : WakeReason

pub data GroupWakeRoute : Type 0 where
  wake : GroupWakeRoute
  quiet : WakeReason → GroupWakeRoute

-- `myMode`, the member's own strategy
pub data GroupAlterMode : Type 0 where
  mention always : GroupAlterMode

pub record GroupWakeInput : Type 0 where
  pub speak_agents : Bool
  pub enabled : Bool
  pub from_self : Bool
  pub wake : GroupAgentWake
  pub my_mode : Option GroupAlterMode
  pub mentioned : Bool

pub record AgentWakeInput : Type 0 where
  pub speak_agents : Bool
  pub enabled : Bool
  pub from_self : Bool
  pub wake : GroupAgentWake
  pub duty : Bool
  pub mentioned : Bool
  pub commander : Bool

-- `wake === 'always' && tightened ? 'mention' : wake`
effective_wake : GroupAgentWake → Bool → GroupAgentWake
effective_wake GroupAgentWake.always tightened =
    if tightened then GroupAgentWake.mention else GroupAgentWake.always
effective_wake GroupAgentWake.mention tightened = GroupAgentWake.mention
effective_wake GroupAgentWake.never tightened = GroupAgentWake.never

-- The switch that ends both functions.
wake_by : GroupAgentWake → Bool → GroupWakeRoute
wake_by GroupAgentWake.never mentioned = quiet wake_never
wake_by GroupAgentWake.always mentioned = wake
wake_by GroupAgentWake.mention mentioned = if mentioned then wake else quiet not_mentioned

abbrev is_mention_mode : GroupAlterMode → Bool
is_mention_mode GroupAlterMode.mention = true
is_mention_mode GroupAlterMode.always = false

unfoldable pub wake_for_group : GroupWakeInput → GroupWakeRoute
unfolding effective_wake wake_by
wake_for_group input =
    if input.from_self
    then quiet self
    else (if not input.speak_agents
        then quiet agents_muted
        else (if not input.enabled
            then quiet alter_disabled
            else wake_by
                (effective_wake input.wake
                  (is_mention_mode (get_or input.my_mode GroupAlterMode.mention)))
                input.mentioned))

unfoldable pub wake_agent_for_group : AgentWakeInput → GroupWakeRoute
unfolding effective_wake wake_by
wake_agent_for_group input =
    if input.from_self
    then quiet self
    else (if not input.speak_agents
        then quiet agents_muted
        else (if not input.enabled
            then quiet voice_disabled
            else (if not input.commander
                then quiet not_commander
                else wake_by (effective_wake input.wake (not input.duty)) input.mentioned)))

unfoldable pub effective_agent_tier : ReplyTier → Bool → ReplyTier
effective_agent_tier ReplyTier.draft approval = if approval then ReplyTier.draft else ReplyTier.auto
effective_agent_tier ReplyTier.notify approval = ReplyTier.notify
effective_agent_tier ReplyTier.auto approval = ReplyTier.auto

pub data RefuseReason : Type 0 where
  agents_muted notify_tier : RefuseReason

pub data GroupSendDecision : Type 0 where
  allow : Bool → AllowReason → GroupSendDecision
  draft : DraftReason → GroupSendDecision
  refuse : RefuseReason → GroupSendDecision

pub record GroupSendGateInput : Type 0 where
  pub trigger : TurnTrigger
  pub gid : String
  pub from_owner : Option Bool
  pub speak_agents : Bool
  pub tier : ReplyTier
  pub auto_sent_in_window : ℕ
  pub auto_per_hour : ℤ
  pub rounds_exceeded : Bool
  pub mentioned : Bool

-- The case 'group' behind its first two tests.
tier_gate : ReplyTier → GroupSendGateInput → GroupSendDecision
tier_gate ReplyTier.notify input = refuse RefuseReason.notify_tier
tier_gate ReplyTier.draft input = draft DraftReason.draft_tier
tier_gate ReplyTier.auto input =
    if not (is_positive input.auto_per_hour)
      || not (lt_count input.auto_sent_in_window input.auto_per_hour)
    then draft DraftReason.rate_limited
    else (if input.rounds_exceeded && not input.mentioned
        then draft DraftReason.agent_rounds
        else allow true AllowReason.auto_tier)

unfoldable pub group_send_gate : GroupSendGateInput → GroupSendDecision
unfolding tier_gate
group_send_gate input =
    if not input.speak_agents then refuse RefuseReason.agents_muted else (elim input.trigger.kind [
      | TriggerKind.owner ↦ allow false AllowReason.owner_initiated
      | TriggerKind.group ↦
          if not (equals input.trigger.gid input.gid)
          then draft DraftReason.other_group
          else (if get_or input.from_owner false
              then allow false AllowReason.owner_initiated
              else tier_gate input.tier input)
      | TriggerKind.inbound ↦ draft DraftReason.other_group
      | TriggerKind.inbound_auto ↦ draft DraftReason.other_group
      | TriggerKind.unknown ↦ draft DraftReason.unknown_trigger
    ])
