-- ===== src/Alter/Tests.antt =====
-- The theorems about the alter's log at a concrete log: the owner asks for a message to Ann, the
-- call sends it, the turn ends, and mail of Ann wakes the next turn.
use soulnet.Prelude.{String, ℕ, true, Option, none, some, List, [], ◌∷◌, ◌++◌, ◌≡◌, ◌↔◌, refl}
use soulnet.Prelude.Int.{pos}
use soulnet.Json.{
  is_true, is_text, at_key, text_of, Json, Fields, str, num, bool, obj, arr, cons, nil, field, end,
}
use soulnet.Policy.{TurnTrigger, TriggerKind}
use soulnet.Alter.{
  EventLike, trigger_of, scan_back, first_trigger, trigger_in, trigger_of_class,
  classify_user_message, relay_meta_of,
}
use soulnet.Alter.Trigger.{Woken, trigger_of_iff}
use soulnet.Alter.Latest.{latest_from_events}
use soulnet.Alter.Chat.{Revise, AlterChatItem}
use soulnet.Alter.Chat.Step.{chat_fold, chat_from_events, empty_chat}
use soulnet.Alter.Chat.Rows.{lasting_rows}
use soulnet.Alter.Chat.Calls.{FindsRows, chat_fold-FindsRows}
use soulnet.Alter.Chat.Log.{open_of, chat_from_events-append, chat_from_events-running}

abbrev event : String → ℕ → Fields → EventLike
event type seq fields = record { type = type; seq = seq; time = pos seq; event_data = obj fields }

abbrev text_content : String → Json
text_content text = arr (cons (obj (field "type" (str "text") (field "text" (str text) end))) nil)

abbrev said : String → Fields → Fields
said text source = field "content" (text_content text) (field "source" (obj source) end)

abbrev a2a_of_ann : Fields
a2a_of_ann = field "fp" (str "ann-fp") (field "id" (str "m1") end)

abbrev relayed : Fields
relayed = field "kind" (str "plugin") (
    field "plugin" (str "soulmirror") (
      field "form" (str "relay")
        (field "senderSessionId" (str "Ann") (field "a2a" (obj a2a_of_ann) end))))

abbrev call_source : Fields
call_source = field "source" (obj (field "callId" (str "c1") end)) end

abbrev first_turn : List EventLike
first_turn =
    event "turn/start" 1 (field "turn" (num (pos 1)) end)
    ∷ event "user/message" 2 (said "write to Ann" (field "kind" (str "user") end))
    ∷ event "tool/call" 3 (
        field "callId" (str "c1")
          (field "name" (str "soulmirror_send_message") (field "arguments" (str "{}") end)))
    ∷ event "tool/result" 4 (field "message" (obj call_source) end)
    ∷ event "turn/end" 5
        (field "reason" (obj (field "kind" (str "completed") end)) (field "turn" (num (pos 1)) end))
    ∷ []

abbrev second_turn : List EventLike
second_turn =
    event "turn/start" 6 (field "turn" (num (pos 2)) end)
    ∷ event "user/message" 7 (said "[mail]" relayed)
    ∷ []

abbrev log : List EventLike
log = first_turn ++ second_turn

-- `JSON.parse`, as far as the log calls it: the object of a call that went well
abbrev parse_ok : String → Option Json
parse_ok _ = some (obj (field "ok" (bool true) end))

abbrev no_revise : String → Option (Revise × String)
no_revise _ = none

abbrev by_ann : TurnTrigger
by_ann = record {
  kind = TriggerKind.inbound;
  fp = some "ann-fp";
  name = some "Ann";
  message_id = some "m1";
  gid = none;
}

log_trigger : trigger_of log ≡ by_ann
unfolding trigger_of scan_back first_trigger trigger_in trigger_of_class classify_user_message
    relay_meta_of is_text at_key text_of is_true
log_trigger = refl

trigger_of_iff_example : (trigger_of log ≡ by_ann) ↔ Woken log by_ann
trigger_of_iff_example = trigger_of_iff log by_ann

chat_fold-FindsRows_example :
    FindsRows parse_ok log (chat_fold parse_ok no_revise true empty_chat log)
chat_fold-FindsRows_example = chat_fold-FindsRows parse_ok no_revise true log

chat_from_events-append_example :
    (new : List AlterChatItem) × (lasting_rows (chat_from_events parse_ok no_revise true log).items
      ≡ lasting_rows (chat_from_events parse_ok no_revise true first_turn).items ++ new)
chat_from_events-append_example =
    chat_from_events-append parse_ok no_revise true first_turn second_turn

chat_from_events-running_example :
    (chat_from_events parse_ok no_revise true log).running
    ≡ open_of (latest_from_events parse_ok log).turn
chat_from_events-running_example = chat_from_events-running parse_ok no_revise true log
