-- ===== src/Alter/Chat/Step.antt =====
-- dsh/packages/dsh/src/alter-state.ts: the rounds of `chatFromEvents`, one function for each type of
-- event.
use soulnet.Prelude.{String, Bool, true, false, ◌||◌, Option, none, some}
use soulnet.Prelude.{List, [], ◌∷◌, ◌==◌, if◌then◌else◌, get_or, length}
use soulnet.Prelude.Int.{pos, is_positive}
use soulnet.Prelude.Text.{after_line, strip_prefix, trim_start, trim, slice}
use soulnet.Prelude.Dict.{lookup, insert}
use soulnet.Json.{Json, at_key, is_true, text_of, num_of}
use soulnet.FriendSettings.{over}
use soulnet.Drafts.{or_else}
use soulnet.Alter.{
  EventLike, RelayMeta, UserMessage, content_text, blocks_text, classify_user_message, next_seq,
}
use soulnet.Alter.Latest.{Outcome, outcome_of, turn_end_message, end_kind, first_block}
use soulnet.Alter.Chat.{
  Revise, AlterChatItem, AlterChat, Chat, push, amend, owner, alter, inbound, send, note,
  turn_failed, tool,
}
use soulnet.Alter.Chat.Thinking.{
  keyed, stop_all, phase_of, settle_thinking, on_assistant_chunk, on_reasoning_chunks,
}

unfoldable pub on_turn_start : EventLike → Chat → Chat
on_turn_start e c = record c {
  running = true;
  turn = num_of (at_key "turn" (some e.event_data)) c.turn;
}

unfoldable pub on_turn_end : EventLike → Chat → Chat
unfolding stop_all
on_turn_end e c =
    let reason = at_key "reason" (some e.event_data) in
    let kind = end_kind reason in
    let c' = stop_all c.thinking_index (record c { running = false }) in
    if kind == "completed"
    then c'
    else push
        (turn_failed (record {
          key = keyed "turn" (pos e.seq);
          ts = e.time;
          turn = num_of (at_key "turn" (some e.event_data)) c.turn;
          reason = kind;
          message = turn_end_message reason;
        }))
        c'

-- `text.includes('\n') ? text.slice(text.indexOf('\n') + 1) : text`
abbrev pub body_of_relay_text : String → String
body_of_relay_text text = get_or (after_line text) text

-- `text.replace(/^\[SoulMirror note\]\s*/, '')`
abbrev pub note_text : String → String
note_text text = elim (strip_prefix "[SoulMirror note]" text) [
  | none ↦ text
  | some rest ↦ trim_start rest
]

inbound_row : RelayMeta → String → EventLike → AlterChatItem
inbound_row r text e = inbound (record {
  key = keyed "in" (pos e.seq);
  ts = if is_positive r.ts then r.ts else e.time;
  fp = r.fp;
  name = r.name;
  id = r.id;
  body = body_of_relay_text text;
  auto = r.auto;
  type = r.type;
  gid = r.gid;
})

-- `revise_of` is `REVISE_INSTRUCTION.exec`: the name, the fingerprint and the feedback.
module _ (revise_of : String → Option (Revise × String)) where
  owner_row : String → EventLike → AlterChatItem
  owner_row text e = elim (revise_of text) [
    | none ↦
        owner (record { key = keyed "owner" (pos e.seq); ts = e.time; text = text; revise = none })
    | some (friend, feedback) ↦ owner (record {
      key = keyed "owner" (pos e.seq);
      ts = e.time;
      text = trim feedback;
      revise = some friend;
    })
  ]

  unfoldable pub user_row : UserMessage → String → EventLike → Option AlterChatItem
  unfolding owner_row inbound_row
  user_row UserMessage.owner text e = if text == "" then none else some (owner_row text e)
  user_row UserMessage.other text e = none
  user_row (UserMessage.note r n) text e = some (
      note (record {
        key = keyed "note" (pos e.seq);
        ts = e.time;
        note = n;
        fp = r.fp;
        text = note_text text;
        draft_id = r.draft_id;
      }))
  user_row (UserMessage.inbound r) text e = some (inbound_row r text e)
  user_row (UserMessage.inbound_auto r) text e = some (inbound_row r text e)
  user_row (UserMessage.group r gid) text e = some (inbound_row r text e)

  unfoldable pub on_user_message : EventLike → Chat → Chat
  on_user_message e c =
      let text = content_text (at_key "content" (some e.event_data)) in
      elim (user_row (classify_user_message e.event_data) text e) [
        | none ↦ c
        | some row ↦ push row c
      ]

unfoldable pub on_assistant_message : Bool → EventLike → Chat → Chat
unfolding settle_thinking
on_assistant_message process e c =
    let d = some e.event_data in
    let message = at_key "message" d in
    let text = content_text (at_key "content" message) in
    let c' =
      if process
      then settle_thinking (phase_of e c) (keyed "think" (pos e.seq))
          (blocks_text "reasoning" (at_key "content" message)) e.time c
      else c in
    if text == ""
    then c'
    else push
        (alter (record {
          key = keyed "alter" (pos e.seq);
          ts = e.time;
          text = text;
          turn = num_of (at_key "turn" d) c.turn;
        }))
        c'

module _ (parse_json : String → Option Json) where
  -- the row of a call that sends
  abbrev pub call_row : EventLike → AlterChatItem
  call_row e =
      let args = parse_json (text_of (at_key "arguments" (some e.event_data))) in
      send (record {
        key = keyed "send" (pos e.seq);
        ts = e.time;
        fp = or_else (text_of (at_key "fingerprint" args)) (text_of (at_key "gid" args));
        body = text_of (at_key "body" args);
        outcome = none;
        gate = none;
        draft_id = none;
        detail = none;
        auto = false;
      })

  unfoldable pub on_tool_call : Bool → EventLike → Chat → Chat
  on_tool_call process e c =
      let d = some e.event_data in
      let name = text_of (at_key "name" d) in
      let call_id = text_of (at_key "callId" d) in
      let row = call_row e in
      if name == "soulmirror_send_message" || name == "soulmirror_send_group_message"
      then (if call_id == ""
          then push row c
          else record (push row c) { send_index = insert call_id (length c.items) c.send_index })
      else (if process
          then push
              (tool (record {
                key = keyed "tool" (pos e.seq);
                ts = e.time;
                name = name;
                args = slice 200 (text_of (at_key "arguments" d));
              }))
              c
          else c)

  -- `{ ...previous, ...outcome, auto }`
  abbrev pub settled : Outcome → Bool → AlterChatItem → AlterChatItem
  settled o auto (send i) = send (record i {
    outcome = some o.outcome;
    gate = over o.gate i.gate;
    draft_id = over o.draft_id i.draft_id;
    detail = over o.detail i.detail;
    auto = auto;
  })
  settled o auto i = i

  unfoldable pub on_tool_result : EventLike → Chat → Chat
  on_tool_result e c =
      let message = at_key "message" (some e.event_data) in
      let call_id = text_of (at_key "callId" (at_key "source" message)) in
      let parsed = parse_json (content_text (at_key "content" (first_block message))) in
      elim (lookup call_id c.send_index) [
        | none ↦ c
        | some i ↦
            amend i (settled (outcome_of parse_json e.event_data) (is_true (at_key "auto" parsed)))
              c
      ]

abbrev pub empty_chat : Chat
empty_chat = record {
  items = [];
  send_index = [];
  thinking_index = [];
  running = false;
  turn = pos 0;
}

module _ (parse_json : String → Option Json) (revise_of : String → Option (Revise × String))
    (process : Bool) where
  unfoldable pub chat_step : Chat → EventLike → Chat
  chat_step c e =
      if e.type == "turn/start"
      then on_turn_start e c
      else (if e.type == "turn/end"
          then on_turn_end e c
          else (if e.type == "user/message"
              then on_user_message revise_of e c
              else (if e.type == "assistant/message"
                  then on_assistant_message process e c
                  else (if e.type == "assistant/chunk"
                      then on_assistant_chunk process e c
                      else (if e.type == "reasoning-chunks"
                          then on_reasoning_chunks process e c
                          else (if e.type == "tool/call"
                              then on_tool_call parse_json process e c
                              else (if e.type == "tool/result"
                                  then on_tool_result parse_json e c
                                  else c)))))))

  unfoldable pub chat_fold : Chat → List EventLike → Chat
  unfolding chat_step
  chat_fold c [] = c
  chat_fold c (e ∷ es) = chat_fold (chat_step c e) es

  unfoldable pub chat_from_events : List EventLike → AlterChat
  unfolding chat_fold
  chat_from_events events =
      let c = chat_fold empty_chat events in
      record { items = c.items; running = c.running; seq = next_seq events }
