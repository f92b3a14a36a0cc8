-- ===== src/Tools/Group.antt =====
-- dsh/packages/dsh/src/tools/index.ts: the tool `soulmirror_send_group_message`, by which the model
-- posts into a group: what it reads of the group, its archive and the session, and what it does.
use soulnet.Prelude.{ℕ, String, Bool, true, false, not, ◌&&◌, Option, none, some, get_or}
use soulnet.Prelude.{List, [], ◌==◌, if◌then◌else◌, find, map, equals}
use soulnet.Policy.{TurnTrigger, TriggerKind, unknown_turn_trigger, DraftReason}
use soulnet.Policy.Group.{
  effective_agent_tier, RefuseReason, GroupSendDecision, allow, draft, refuse, GroupSendGateInput,
  group_send_gate,
}
use soulnet.Policy.Window.{hour_ms}
use soulnet.Policy.Caps.{Direction, GroupCapEntry, count_auto_in_window, agent_rounds_exceeded}
use soulnet.Policy.Mentions.{Text, mentions_me, mentions_agent}
use soulnet.Contract.{WireProfile, normalize_group_profile}

-- An entry of the archive of the group, `by` as `entryBy` reads it.
pub record GroupEntry : Type 0 where
  pub id : String
  pub dir : Direction
  pub ts : ℕ
  pub auto : Bool
  pub by : Option String
  pub body : Text

-- A named agent of the seat that calls.
pub record Voice : Type 0 where
  pub name : Text
  pub approval : Bool

-- What a call reads: the sessions, the trigger of its turn, its voice, the own fingerprint, the
-- profile of the group, the own name, and `conversation`, what the network answers of the group's
-- archive for a limit of entries, `none` where it cannot be reached; and whether the network takes
-- the post and the owner approves it where that is asked for.
pub record GroupCall : Type 0 where
  pub has_face : Bool
  pub has_session : Bool
  pub trigger : TurnTrigger
  pub voice : Option Voice
  pub own_fp : String
  pub gid : String
  pub profile : WireProfile
  pub conversation : ℕ → Option (List GroupEntry)
  pub my_name : Option Text
  pub now : ℕ
  pub delivered : Bool
  pub approved : Bool

pub data GroupOutcome : Type 0 where
  posted : Bool → GroupOutcome
  queued : DraftReason → GroupOutcome
  turned_down : RefuseReason → GroupOutcome
  not_approved failed : GroupOutcome

-- The entries that the caps are read from: an archive that cannot be reached counts as empty.
abbrev pub entries_of : GroupCall → List GroupEntry
entries_of c = get_or (c.conversation 200) []

abbrev pub cap_entry : GroupEntry → GroupCapEntry
cap_entry e = record {
  dir = e.dir;
  ts = e.ts;
  auto = if e.auto then some true else none;
  by = e.by;
}

abbrev pub caps_of : GroupCall → List GroupCapEntry
caps_of c = map cap_entry (entries_of c)

abbrev pub trigger_here : GroupCall → TurnTrigger
trigger_here c = if c.has_face && c.has_session then c.trigger else unknown_turn_trigger

abbrev voice_here : GroupCall → Option Voice
voice_here c = if c.has_face && c.has_session then c.voice else none

abbrev asks_approval : Option Voice → Bool
asks_approval none = false
asks_approval (some v) = v.approval

abbrev pub is_group : TriggerKind → Bool
is_group TriggerKind.group = true
is_group _ = false

-- `trigger.kind === 'group' && trigger.fp !== undefined && ownFp !== '' && trigger.fp === ownFp`
abbrev pub is_own : TurnTrigger → String → Bool
is_own t own_fp = is_group t.kind && not (own_fp == "") && equals t.fp own_fp

-- What follows the decision.
abbrev pub carry_out_post : GroupCall → GroupSendDecision → GroupOutcome
carry_out_post c (refuse reason) = turned_down reason
carry_out_post c (draft reason) =
    if c.has_face
    then queued reason
    else (if not c.approved then not_approved else (if c.delivered then posted false else failed))
carry_out_post c (allow auto reason) = if c.delivered then posted auto else failed

module _ (to_lower_case : Text → Text) where
  abbrev names_voice : Option Voice → Text → GroupEntry → Bool
  names_voice none my_name e = mentions_me to_lower_case e.body my_name
  names_voice (some v) my_name e = mentions_agent to_lower_case e.body v.name

  abbrev is_mentioned : GroupCall → Bool
  is_mentioned c = elim (trigger_here c).message_id [
    | none ↦ false
    | some id ↦ elim (find (λ (e : GroupEntry). e.id == id) (entries_of c)) [
      | none ↦ false
      | some e ↦ names_voice (voice_here c) (get_or c.my_name []) e
    ]
  ]

  abbrev pub gate_input : GroupCall → GroupSendGateInput
  gate_input c =
      let profile = normalize_group_profile c.profile in
      record {
        trigger = trigger_here c;
        gid = c.gid;
        from_owner = some (is_own (trigger_here c) (if c.has_face then c.own_fp else ""));
        speak_agents = profile.speak_agents;
        tier = effective_agent_tier profile.agent_tier (asks_approval (voice_here c));
        auto_sent_in_window = count_auto_in_window (caps_of c) c.now hour_ms;
        auto_per_hour = profile.auto_per_hour;
        rounds_exceeded = agent_rounds_exceeded (caps_of c) profile.agent_rounds;
        mentioned = is_mentioned c;
      }

  unfoldable pub send_group_message : GroupCall → GroupOutcome
  unfolding normalize_group_profile group_send_gate
  send_group_message c = carry_out_post c (group_send_gate (gate_input c))
