-- ===== src/Tools.antt =====
-- dsh/packages/dsh/src/tools/index.ts: the tool `soulmirror_send_message`, by which the model
-- writes to a friend. One call is one step here, from the decision to the record of what was sent:
-- no other call comes between, as when the model calls its tools one after the other.
pub mod Cap
pub mod Turn
pub mod Group
pub mod Post
pub mod History
mod Tests
use soulnet.Prelude.{ℕ, String, Bool, true, false, not, ◌&&◌, Option, none, some}
use soulnet.Prelude.{if◌then◌else◌}
use soulnet.Prelude.Int.{ℤ}
use soulnet.Policy.{
  ReplyTier, default_reply_tier, TurnTrigger, TriggerKind, unknown_turn_trigger, DraftReason,
  SendDecision, allow, draft, SendGateInput, send_gate,
}
use soulnet.Policy.Window.{HourlyWindow, count, record_hit}

-- What a call reads of the services around it: whether the sessions are there and the call is of
-- one of them, the trigger of that session's turn, the tier of the target, the clock at the decision
-- and behind the send, whether the session is a seat agent's, whether the target is a friend, whether the network takes the message,
-- and the owner's answer where it is asked for.
pub record SendCall : Type 0 where
  pub has_face : Bool
  pub has_session : Bool
  pub trigger : TurnTrigger
  pub target : String
  pub tier : ReplyTier
  pub now : ℕ
  pub sent_at : ℕ
  pub by_agent : Bool
  pub is_friend : Bool
  pub delivered : Bool
  pub approved : Bool

pub data Outcome : Type 0 where
  sent : Bool → Outcome
  draft_queued : DraftReason → Outcome
  refused not_approved failed : Outcome

abbrev is_owner : TriggerKind → Bool
is_owner TriggerKind.owner = true
is_owner _ = false

-- The window is the one of the sessions; without them nothing is counted.
unfoldable pub decide_send : ℤ → HourlyWindow → SendCall → HourlyWindow × SendDecision
decide_send limit w c =
    if c.has_face
    then (let (w', n) = count w c.target c.now in
        (
          w',
          send_gate (record {
            trigger = if c.has_session then c.trigger else unknown_turn_trigger;
            target = c.target;
            tier = c.tier;
            auto_sent_in_window = n;
            limit = limit;
          }),
        ))
    else (
      w,
      send_gate (record {
        trigger = unknown_turn_trigger;
        target = c.target;
        tier = default_reply_tier;
        auto_sent_in_window = 0;
        limit = limit;
      }),
    )

-- What follows the decision.
unfoldable pub carry_out : SendCall → HourlyWindow → SendDecision → HourlyWindow × Outcome
carry_out c w (draft reason) =
    if c.has_face
    then (w, draft_queued reason)
    else (if not c.approved
        then (w, not_approved)
        else (w, if c.delivered then sent false else failed))
carry_out c w (allow auto reason) =
    if not c.delivered
    then (w, failed)
    else (if c.has_face && auto
        then ((record_hit w c.target c.sent_at).0, sent auto)
        else (w, sent auto))

unfoldable pub send_message : ℤ → HourlyWindow → SendCall → HourlyWindow × Outcome
unfolding decide_send carry_out
send_message limit w c =
    if c.by_agent && c.has_face && c.has_session && not (is_owner c.trigger.kind)
    then (w, refused)
    else (if not c.is_friend
        then (w, failed)
        else (let (w', decision) = decide_send limit w c in carry_out c w' decision))
