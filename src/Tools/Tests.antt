-- ===== src/Tools/Tests.antt =====
-- The theorems about the tools that write at concrete inputs: two replies under a cap of one, a turn
-- that the owner started, and an answer in a group.
use soulnet.Prelude.{◌≤◌, arith, true, false, some, none, List, [], ◌∷◌}
use soulnet.Prelude.{length, filter, count}
use soulnet.Prelude.Int.{pos}
use soulnet.Policy.{TriggerKind, ReplyTier}
use soulnet.Policy.Window.{is_recent, hour_ms}
use soulnet.Policy.Window.Ledger.{empty}
use soulnet.Prelude.{◌≡◌, refl}
use soulnet.Json.{is_text, at_key, str, null, obj, field, end}
use soulnet.Policy.{send_gate, normalize_tier}
use soulnet.Alter.{
  EventLike, trigger_of, scan_back, first_trigger, trigger_in, trigger_of_class,
  classify_user_message,
}
use soulnet.Tools.{SendCall, sent, send_message, decide_send, carry_out}
use soulnet.Policy.Group.{group_send_gate, effective_agent_tier}
use soulnet.Policy.Mentions.{Text}
use soulnet.Contract.{WireProfile, normalize_group_profile}
use soulnet.Policy.Caps.{Direction, count_auto_in_window, in_auto_window, agent_rounds_exceeded}
use soulnet.Tools.History.{History, is_recent_automatic, recent_automatic-le}
use soulnet.Tools.Group.{GroupEntry, GroupCall, posted, send_group_message}
use soulnet.Tools.Post.{PostCause, IsCapped, send_group_message-PostCause}
use soulnet.Tools.Turn.{Cause, send_message-Cause}
use soulnet.Tools.Cap.{cap_of, auto_sent, auto_sent-le}

abbrev reply_to_ann : SendCall
reply_to_ann = record {
  has_face = true;
  has_session = true;
  trigger = record {
    kind = TriggerKind.inbound;
    fp = some "ann";
    name = none;
    message_id = none;
    gid = none;
  };
  target = "ann";
  tier = ReplyTier.auto;
  now = 5;
  sent_at = 6;
  by_agent = false;
  is_friend = true;
  delivered = true;
  approved = false;
}

abbrev calls : List SendCall
calls = reply_to_ann ∷ record reply_to_ann { now = 8; sent_at = 8 } ∷ []

auto_sent-le_example :
    length (filter (is_recent hour_ms 9) (auto_sent (pos 1) (empty hour_ms) calls "ann"))
    ≤ cap_of (pos 1)
auto_sent-le_example =
    auto_sent-le (pos 1) hour_ms calls "ann" 9
      (omega arith, (omega arith, (omega arith, (omega arith, tt)))) (omega arith)

-- a log whose turn the owner started
abbrev owner_log : List EventLike
owner_log =
    record { type = "turn/start"; seq = 1; time = pos 1; event_data = null }
    ∷ record {
      type = "user/message";
      seq = 2;
      time = pos 2;
      event_data = obj (field "source" (obj (field "kind" (str "user") end)) end);
    }
    ∷ []

abbrev owner_call : SendCall
owner_call = record reply_to_ann { trigger = trigger_of owner_log }

owner_log_sent : (send_message (pos 1) (empty hour_ms) owner_call).1 ≡ sent false
unfolding send_message decide_send carry_out send_gate trigger_of scan_back first_trigger trigger_in
    trigger_of_class classify_user_message is_text at_key
owner_log_sent = refl

send_message-Cause_example : Cause owner_log "ann" false
send_message-Cause_example =
    send_message-Cause (pos 1) (empty hour_ms) owner_call owner_log false refl refl refl
      owner_log_sent

abbrev owner_post : GroupCall
owner_post = record {
  has_face = true;
  has_session = true;
  trigger = trigger_of owner_log;
  voice = none;
  own_fp = "me";
  gid = "g1";
  profile = record { keys = none; auto_per_hour = none; agent_rounds = none };
  conversation = λ _. none;
  my_name = none;
  now = 5;
  delivered = true;
  approved = false;
}

abbrev as_it_is : Text → Text
as_it_is s = s

owner_post_sent : send_group_message as_it_is owner_post ≡ posted false
unfolding send_group_message group_send_gate normalize_group_profile trigger_of scan_back
    first_trigger trigger_in trigger_of_class classify_user_message is_text at_key
owner_post_sent = refl

send_group_message-PostCause_example :
    PostCause owner_log "g1" "me" false × IsCapped owner_post false
send_group_message-PostCause_example =
    send_group_message-PostCause as_it_is owner_post owner_log refl refl refl false owner_post_sent

-- A group of one automatic post an hour: a member writes, and the alter answers.
abbrev one_an_hour : WireProfile
one_an_hour = record {
  keys = none;
  auto_per_hour = some (record { numerator = pos 3; exponent = 1 });
  agent_rounds = none;
}

abbrev question : GroupEntry
question = record {
  id = "m1";
  dir = Direction.incoming;
  ts = 5;
  auto = false;
  by = none;
  body = [];
}

abbrev answer : GroupEntry
answer = record {
  id = "m2";
  dir = Direction.outgoing;
  ts = 8;
  auto = true;
  by = some "alter";
  body = [];
}

abbrev reply_to_group : GroupCall
reply_to_group = record owner_post {
  trigger = record {
    kind = TriggerKind.group;
    fp = some "ann";
    name = none;
    message_id = some "m1";
    gid = some "g1";
  };
  profile = one_an_hour;
  conversation = λ _. some (question ∷ []);
  now = 7;
}

reply_sent : send_group_message as_it_is reply_to_group ≡ posted true
unfolding send_group_message group_send_gate normalize_group_profile effective_agent_tier
    normalize_tier count_auto_in_window in_auto_window agent_rounds_exceeded at_key is_text
reply_sent = refl

two_entries : History as_it_is one_an_hour 8 (question ∷ answer ∷ [])
two_entries =
    History.posts 5 (question ∷ []) answer reply_to_group
      (History.said 0 [] question (History.empty 0) (omega arith) refl) refl refl (omega arith)
      reply_sent (omega arith)

recent_automatic-le_example : count (is_recent_automatic 20) (question ∷ answer ∷ []) ≤ 1
unfolding normalize_group_profile
recent_automatic-le_example =
    recent_automatic-le as_it_is one_an_hour 1 refl 8 20 (question ∷ answer ∷ []) two_entries
      (omega arith)
