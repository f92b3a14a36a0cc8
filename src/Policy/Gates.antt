-- ===== src/Policy/Gates.antt =====
-- The gates of policy.ts (../Policy.antt and Group.antt) against the conditions that they stand for.
use soulnet.Prelude.{String, Bool, true, false, Option, none, some, ◌≡◌, ◌≢◌, ◌↔◌, ◌⊎◌}
use soulnet.Prelude.{arith, eq_iff, equals_iff}
use soulnet.Prelude.Int.{lt_count}
use soulnet.Policy.{
  ReplyTier, TriggerKind, RouteInboundInput, InboundRoute, route_inbound, AllowReason, SendDecision,
  SendGateInput, send_gate, names_other,
}
use soulnet.Policy.Group.{
  GroupAgentWake, GroupAlterMode, GroupWakeInput, AgentWakeInput, GroupWakeRoute, wake_for_group,
  wake_agent_for_group, GroupSendGateInput, GroupSendDecision, RefuseReason, group_send_gate,
}

-- Inbound mail wakes a turn exactly when the sender is a friend, the mail is no automatic reply and
-- the friend's tier is not `notify`.
pub route_inbound-wake_iff :
    (i : RouteInboundInput)
    → (route_inbound i ≡ InboundRoute.wake)
      ↔ ((i.is_friend ≡ true) × (i.auto ≡ false) × (i.tier ≢ ReplyTier.notify))
unfolding route_inbound
route_inbound-wake_iff i = ground arith

-- The friend who wrote, if the trigger names one, is the friend addressed.
abbrev pub Answers : Option String → String → Type 0
Answers fp target = (fp ≡ none) ⊎ (fp ≡ some target)

names_other_iff :
    (fp : Option String) (target : String) → (names_other fp target ≡ false) ↔ Answers fp target
names_other_iff none target = ground arith
names_other_iff (some fp) target = ground (arith, eq_iff fp target)

-- The gate lets a message to a friend out in two cases and no other: in a turn of the owner, and
-- then it is not flagged automatic; and in a turn that mail of that friend woke, when the friend's
-- tier is `auto` and fewer automatic replies than the cap were counted, and then it is flagged.
pub send_gate-allow_iff :
    (i : SendGateInput) (auto : Bool) (reason : AllowReason)
    → (send_gate i ≡ SendDecision.allow auto reason) ↔ (
        (i.trigger.kind ≡ TriggerKind.owner)
          × (auto ≡ false)
          × (reason ≡ AllowReason.owner_initiated)
        ⊎ (i.trigger.kind ≡ TriggerKind.inbound)
          × Answers i.trigger.fp i.target
          × (i.tier ≡ ReplyTier.auto)
          × (lt_count i.auto_sent_in_window i.limit ≡ true)
          × (auto ≡ true)
          × (reason ≡ AllowReason.auto_tier))
unfolding send_gate
send_gate-allow_iff i auto reason = ground (arith, names_other_iff i.trigger.fp i.target)

-- The alter is woken by a group message exactly when it may speak there, is switched on, did not
-- write the message itself, and the stricter of the two policies lets it: the group's is not
-- `never`, and either the message names it or both the group and the member said `always`.
pub wake_for_group-wake_iff :
    (i : GroupWakeInput)
    → (wake_for_group i ≡ GroupWakeRoute.wake) ↔ (
        (i.from_self ≡ false)
        × (i.speak_agents ≡ true)
        × (i.enabled ≡ true)
        × (i.wake ≢ GroupAgentWake.never)
        × ((i.mentioned ≡ true)
            ⊎ ((i.wake ≡ GroupAgentWake.always) × (i.my_mode ≡ some GroupAlterMode.always))))
unfolding wake_for_group
wake_for_group-wake_iff i = ground arith

-- A seat agent is woken exactly when it may speak, is switched on, did not write the message, the
-- sender may command it, and the group's policy is not `never` and the message names the agent, or
-- the policy is `always` and the agent is on duty.
pub wake_agent_for_group-wake_iff :
    (i : AgentWakeInput)
    → (wake_agent_for_group i ≡ GroupWakeRoute.wake) ↔ (
        (i.from_self ≡ false)
        × (i.speak_agents ≡ true)
        × (i.enabled ≡ true)
        × (i.commander ≡ true)
        × (i.wake ≢ GroupAgentWake.never)
        × ((i.mentioned ≡ true) ⊎ ((i.wake ≡ GroupAgentWake.always) × (i.duty ≡ true))))
unfolding wake_agent_for_group
wake_agent_for_group-wake_iff i = ground arith

-- A post to a group goes out in two cases and no other, both only where the profile lets agents
-- speak: on the owner's instruction, unflagged, which is a turn of the owner or the owner's own post
-- in that group; and, flagged automatic, in a turn that a message of that group woke, when the tier
-- is `auto`, fewer automatic posts than the cap were counted, and the agents have not used up their
-- rounds or the message named this one.
pub group_send_gate-allow_iff :
    (i : GroupSendGateInput) (auto : Bool) (reason : AllowReason)
    → (group_send_gate i ≡ GroupSendDecision.allow auto reason) ↔ (
        (i.speak_agents ≡ true)
          × (auto ≡ false)
          × (reason ≡ AllowReason.owner_initiated)
          × ((i.trigger.kind ≡ TriggerKind.owner)
              ⊎ (i.trigger.kind ≡ TriggerKind.group)
                × (i.trigger.gid ≡ some i.gid)
                × (i.from_owner ≡ some true))
        ⊎ (i.speak_agents ≡ true)
          × (auto ≡ true)
          × (reason ≡ AllowReason.auto_tier)
          × (i.trigger.kind ≡ TriggerKind.group)
          × (i.trigger.gid ≡ some i.gid)
          × (i.from_owner ≢ some true)
          × (i.tier ≡ ReplyTier.auto)
          × (lt_count i.auto_sent_in_window i.auto_per_hour ≡ true)
          × ((i.rounds_exceeded ≡ false) ⊎ (i.mentioned ≡ true)))
unfolding group_send_gate
group_send_gate-allow_iff i auto reason = ground (arith, equals_iff i.trigger.gid i.gid)

-- The call is refused outright exactly when agents may not speak in the group at all, or when a
-- message of that group, not the owner's own, woke the turn and the tier is `notify`.
pub group_send_gate-refuse_iff :
    (i : GroupSendGateInput) (reason : RefuseReason)
    → (group_send_gate i ≡ GroupSendDecision.refuse reason) ↔ (
        (i.speak_agents ≡ false) × (reason ≡ RefuseReason.agents_muted)
        ⊎ (i.speak_agents ≡ true)
          × (i.trigger.kind ≡ TriggerKind.group)
          × (i.trigger.gid ≡ some i.gid)
          × (i.from_owner ≢ some true)
          × (i.tier ≡ ReplyTier.notify)
          × (reason ≡ RefuseReason.notify_tier))
unfolding group_send_gate
group_send_gate-refuse_iff i reason = ground (arith, equals_iff i.trigger.gid i.gid)
