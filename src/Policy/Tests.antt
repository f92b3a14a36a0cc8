-- ===== src/Policy/Tests.antt =====
-- The theorems about policy.ts at concrete inputs, and runs of its functions.
use soulnet.Prelude.{
  ◌≡◌, ◌≢◌, ◌↔◌, ◌⊎◌, ◌≤◌, ◌<◌, refl, arith, true, false, some, none, List, [], ◌∷◌,
}
use soulnet.Prelude.{length, filter, take, All, reverse, ◌++◌}
use soulnet.Prelude.Int.{pos, lt_count}
use soulnet.Policy
use soulnet.Prelude.Dict
use soulnet.Policy.{
  ReplyTier, TriggerKind, TurnTrigger, RouteInboundInput, InboundRoute, route_inbound, AllowReason,
  SendDecision, SendGateInput, send_gate, names_other, inbound_gate, unknown_turn_trigger,
}
use soulnet.Policy.Group.{
  GroupAgentWake, GroupAlterMode, GroupWakeInput, AgentWakeInput, GroupWakeRoute, wake_for_group,
  wake_agent_for_group, GroupSendGateInput, GroupSendDecision, RefuseReason, group_send_gate,
}
use soulnet.Policy.Gates.{
  Answers, send_gate-allow_iff, wake_for_group-wake_iff, wake_agent_for_group-wake_iff,
  group_send_gate-allow_iff, group_send_gate-refuse_iff,
}
use soulnet.Policy.Window.{count, is_recent}
use soulnet.Policy.Window.Ledger.{Call, count_at, record_at, run, recorded, empty, count-run}
use soulnet.Policy.Caps.{
  Direction, GroupCapEntry, agent_rounds_exceeded, ByAlter, agent_rounds_exceeded_iff,
}
use soulnet.Policy.Mentions.{Text, mentions_me, mentions_agent, trim, all_token}
use soulnet.Policy.Mentions.Occurs.{Mentions, mentions_me_iff}

abbrev friendly : RouteInboundInput
friendly = record { tier = ReplyTier.draft; auto = false; is_friend = true }

abbrev from_ann : TurnTrigger
from_ann = record unknown_turn_trigger { kind = TriggerKind.inbound; fp = some "ann" }

abbrev answer : SendGateInput
answer = record {
  trigger = from_ann;
  target = "ann";
  tier = ReplyTier.auto;
  auto_sent_in_window = 19;
  limit = pos 20;
}

send_gate-allow_example : (send_gate answer ≡ SendDecision.allow true AllowReason.auto_tier) ↔ (
    (answer.trigger.kind ≡ TriggerKind.owner)
      × (true ≡ false)
      × (AllowReason.auto_tier ≡ AllowReason.owner_initiated)
    ⊎ (answer.trigger.kind ≡ TriggerKind.inbound)
      × Answers answer.trigger.fp answer.target
      × (answer.tier ≡ ReplyTier.auto)
      × (lt_count answer.auto_sent_in_window answer.limit ≡ true)
      × (true ≡ true)
      × (AllowReason.auto_tier ≡ AllowReason.auto_tier))
send_gate-allow_example = send_gate-allow_iff answer true AllowReason.auto_tier

answered : send_gate answer ≡ SendDecision.allow true AllowReason.auto_tier
unfolding send_gate
answered = refl

abbrev spoken : GroupWakeInput
spoken = record {
  speak_agents = true;
  enabled = true;
  from_self = false;
  wake = GroupAgentWake.always;
  my_mode = none;
  mentioned = true;
}

wake_for_group-wake_example : (wake_for_group spoken ≡ GroupWakeRoute.wake) ↔ (
    (spoken.from_self ≡ false)
    × (spoken.speak_agents ≡ true)
    × (spoken.enabled ≡ true)
    × (spoken.wake ≢ GroupAgentWake.never)
    × ((spoken.mentioned ≡ true)
        ⊎ ((spoken.wake ≡ GroupAgentWake.always) × (spoken.my_mode ≡ some GroupAlterMode.always))))
wake_for_group-wake_example = wake_for_group-wake_iff spoken

abbrev ordered : AgentWakeInput
ordered = record {
  speak_agents = true;
  enabled = true;
  from_self = false;
  wake = GroupAgentWake.always;
  duty = true;
  mentioned = false;
  commander = true;
}

wake_agent_for_group-wake_example : (wake_agent_for_group ordered ≡ GroupWakeRoute.wake) ↔ (
    (ordered.from_self ≡ false)
    × (ordered.speak_agents ≡ true)
    × (ordered.enabled ≡ true)
    × (ordered.commander ≡ true)
    × (ordered.wake ≢ GroupAgentWake.never)
    × ((ordered.mentioned ≡ true)
        ⊎ ((ordered.wake ≡ GroupAgentWake.always) × (ordered.duty ≡ true))))
wake_agent_for_group-wake_example = wake_agent_for_group-wake_iff ordered

abbrev post : GroupSendGateInput
post = record {
  trigger = record unknown_turn_trigger { kind = TriggerKind.group; gid = some "g1" };
  gid = "g1";
  from_owner = none;
  speak_agents = true;
  tier = ReplyTier.auto;
  auto_sent_in_window = 1;
  auto_per_hour = pos 2;
  rounds_exceeded = true;
  mentioned = true;
}

group_send_gate-allow_example :
    (group_send_gate post ≡ GroupSendDecision.allow true AllowReason.auto_tier) ↔ (
      (post.speak_agents ≡ true)
        × (true ≡ false)
        × (AllowReason.auto_tier ≡ AllowReason.owner_initiated)
        × ((post.trigger.kind ≡ TriggerKind.owner)
            ⊎ (post.trigger.kind ≡ TriggerKind.group)
              × (post.trigger.gid ≡ some post.gid)
              × (post.from_owner ≡ some true))
      ⊎ (post.speak_agents ≡ true)
        × (true ≡ true)
        × (AllowReason.auto_tier ≡ AllowReason.auto_tier)
        × (post.trigger.kind ≡ TriggerKind.group)
        × (post.trigger.gid ≡ some post.gid)
        × (post.from_owner ≢ some true)
        × (post.tier ≡ ReplyTier.auto)
        × (lt_count post.auto_sent_in_window post.auto_per_hour ≡ true)
        × ((post.rounds_exceeded ≡ false) ⊎ (post.mentioned ≡ true)))
group_send_gate-allow_example = group_send_gate-allow_iff post true AllowReason.auto_tier

abbrev muted_post : GroupSendGateInput
muted_post = record post { tier = ReplyTier.notify }

group_send_gate-refuse_example :
    (group_send_gate muted_post ≡ GroupSendDecision.refuse RefuseReason.notify_tier) ↔ (
      (muted_post.speak_agents ≡ false) × (RefuseReason.notify_tier ≡ RefuseReason.agents_muted)
      ⊎ (muted_post.speak_agents ≡ true)
        × (muted_post.trigger.kind ≡ TriggerKind.group)
        × (muted_post.trigger.gid ≡ some muted_post.gid)
        × (muted_post.from_owner ≢ some true)
        × (muted_post.tier ≡ ReplyTier.notify)
        × (RefuseReason.notify_tier ≡ RefuseReason.notify_tier))
group_send_gate-refuse_example = group_send_gate-refuse_iff muted_post RefuseReason.notify_tier

abbrev calls : List Call
calls = record_at "ann" 10 ∷ record_at "bob" 20 ∷ count_at "ann" 40 ∷ record_at "ann" 50 ∷ []

count-run_example :
    (count (run (empty 30) calls) "ann" 60).1
    ≡ length (filter (is_recent 30 60) (recorded "ann" calls))
count-run_example = count-run 30 calls "ann" 60 (omega arith) (omega arith)

counted : (count (run (empty 30) calls) "ann" 60).1 ≡ 1
unfolding count run Policy.Window.record_hit Dict.lookup Dict.insert Dict.remove
counted = refl

abbrev said : GroupCapEntry
said = record { dir = Direction.outgoing; ts = 5; auto = some true; by = some "alter" }

abbrev heard : GroupCapEntry
heard = record { dir = Direction.incoming; ts = 1; auto = none; by = none }

agent_rounds_exceeded_example :
    (agent_rounds_exceeded (heard ∷ said ∷ said ∷ []) (pos 2) ≡ true) ↔ (
      (0 < 2)
      × (2 ≤ length (heard ∷ said ∷ said ∷ []))
      × All ByAlter (take 2 (reverse (heard ∷ said ∷ said ∷ []))))
agent_rounds_exceeded_example = agent_rounds_exceeded_iff (heard ∷ said ∷ said ∷ []) 2

-- lower case, over ASCII
abbrev lower : Text → Text
lower s = s

abbrev at_ann : Text
at_ann = b'h' ∷ b'i' ∷ b' ' ∷ b'@' ∷ b'a' ∷ b'n' ∷ b'n' ∷ []

abbrev ann : Text
ann = b'a' ∷ b'n' ∷ b'n' ∷ []

mentions_me_example : (mentions_me lower at_ann ann ≡ true) ↔ (
    Mentions (lower at_ann) all_token
    ⊎ (lower (trim ann) ≢ []) × Mentions (lower at_ann) (lower (trim ann)))
mentions_me_example = mentions_me_iff lower at_ann ann

named : mentions_agent lower at_ann ann ≡ true
unfolding mentions_agent Policy.Mentions.has_mention_token trim
named = refl

other_name : mentions_agent lower (at_ann ++ b'e' ∷ []) ann ≡ false
unfolding mentions_agent Policy.Mentions.has_mention_token trim
other_name = refl
