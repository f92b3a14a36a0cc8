-- ===== src/Alter.antt =====
-- dsh/packages/dsh/src/alter-state.ts: what the event log of the alter's session says. Here the
-- texts of messages, the mark of relayed mail, and what woke the current turn; the children model
-- the latest state and the transcript.
pub mod Trigger
pub mod Latest
pub mod Chat
mod Tests
use soulnet.Prelude.{ℕ, ◌+◌, String, Bool, true, false, not, ◌&&◌, ◌||◌, Option, none, some}
use soulnet.Prelude.{List, [], ◌∷◌, ◌==◌, map, filter, if◌then◌else◌, is_some, reverse}
use soulnet.Prelude.Int.{ℤ, pos}
use soulnet.Prelude.Text.{trim, join}
use soulnet.Json.{Json, arr, str, items, at_key, is_text, is_true, text_of, num_of, array_of}
use soulnet.Policy.{TurnTrigger, TriggerKind, unknown_turn_trigger}

pub record EventLike : Type 0 where
  pub type : String
  pub seq : ℕ
  pub time : ℤ
  pub event_data : Json

-- The texts of the blocks of a type, one to a line.
block_text : String → Json → String
block_text type b =
    if is_text type (at_key "type" (some b)) then text_of (at_key "text" (some b)) else ""

unfoldable pub blocks_text : String → Option Json → String
unfolding block_text
blocks_text type content =
    trim (join "\n" (filter (λ t. not (t == "")) (map (block_text type) (array_of content))))

-- `textOf`
abbrev pub content_text : Option Json → String
content_text content = blocks_text "text" content

-- events.ts
abbrev pub soulmirror_plugin : String
soulmirror_plugin = "soulmirror"

abbrev pub relay_form : String
relay_form = "relay"

pub record RelayMeta : Type 0 where
  pub fp : String
  pub id : String
  pub ts : ℤ
  pub name : String
  pub auto : Bool
  pub type : Option String
  pub gid : Option String
  pub by : Option String
  pub agent : Option String
  pub note : Option String
  pub draft_id : Option String

-- `typeof v === 'string' ? { key: v } : {}`
abbrev pub string_of : Option Json → Option String
string_of (some (str s)) = some s
string_of _ = none

-- `typeof v === 'string' && v !== '' ? { key: v } : {}`
abbrev pub full_string_of : Option Json → Option String
full_string_of (some (str s)) = if s == "" then none else some s
full_string_of _ = none

unfoldable pub relay_meta_of : Json → Option RelayMeta
relay_meta_of message =
    let source = at_key "source" (some message) in
    let a2a = at_key "a2a" source in
    if not (is_text "plugin" (at_key "kind" source))
      || not (is_text soulmirror_plugin (at_key "plugin" source))
      || not (is_text relay_form (at_key "form" source))
    then none
    else some (record {
      fp = text_of (at_key "fp" a2a);
      id = text_of (at_key "id" a2a);
      ts = num_of (at_key "ts" a2a) (pos 0);
      name = text_of (at_key "senderSessionId" source);
      auto = is_true (at_key "auto" a2a);
      type = string_of (at_key "type" a2a);
      gid = full_string_of (at_key "gid" a2a);
      by = full_string_of (at_key "by" a2a);
      agent = full_string_of (at_key "agent" a2a);
      note = string_of (at_key "note" a2a);
      draft_id = string_of (at_key "draftId" a2a);
    })

-- The answer of `classifyUserMessage`. The code asks `relayMetaOf` again where the class says that
-- there is one; here the class holds it.
pub data UserMessage : Type 0 where
  owner : UserMessage
  inbound : RelayMeta → UserMessage
  inbound_auto : RelayMeta → UserMessage
  group : RelayMeta → String → UserMessage
  note : RelayMeta → String → UserMessage
  other : UserMessage

abbrev relay_class : Option RelayMeta → UserMessage
relay_class none = other
relay_class (some relay) = elim relay.note [
  | some n ↦ note relay n
  | none ↦ elim relay.gid [
    | some gid ↦ group relay gid
    | none ↦ if relay.auto then inbound_auto relay else inbound relay
  ]
]

unfoldable pub classify_user_message : Json → UserMessage
classify_user_message message =
    if is_text "user" (at_key "kind" (at_key "source" (some message)))
    then owner
    else relay_class (relay_meta_of message)

-- The trigger that a message of the class stands for.
unfoldable pub trigger_of_class : UserMessage → Option TurnTrigger
trigger_of_class owner = some (record unknown_turn_trigger { kind = TriggerKind.owner })
trigger_of_class (inbound r) = some (record {
  kind = TriggerKind.inbound;
  fp = some r.fp;
  name = some r.name;
  message_id = some r.id;
  gid = none;
})
trigger_of_class (inbound_auto r) = some (record {
  kind = TriggerKind.inbound_auto;
  fp = some r.fp;
  name = some r.name;
  message_id = some r.id;
  gid = none;
})
trigger_of_class (group r gid) = some (record {
  kind = TriggerKind.group;
  fp = some r.fp;
  name = some r.name;
  message_id = some r.id;
  gid = some gid;
})
trigger_of_class (note r n) = none
trigger_of_class other = none

-- What an event says about the trigger of its turn.
unfoldable pub trigger_in : EventLike → Option TurnTrigger
trigger_in e =
    if e.type == "user/message" then trigger_of_class (classify_user_message e.event_data) else none

-- The second loop, over the events behind the last `turn/start`.
unfoldable pub first_trigger : List EventLike → TurnTrigger
first_trigger [] = unknown_turn_trigger
first_trigger (e ∷ es) =
    let later = first_trigger es in elim (trigger_in e) [ none ↦ later | some t ↦ t ]

abbrev pub starts_turn : EventLike → Bool
starts_turn e = e.type == "turn/start"

-- The first loop, from the end of the log back: `behind` are the events it has passed.
unfoldable pub scan_back : List EventLike → List EventLike → TurnTrigger
scan_back behind [] = unknown_turn_trigger
scan_back behind (e ∷ before) =
    let earlier = scan_back (e ∷ behind) before in
    if starts_turn e then first_trigger behind else earlier

unfoldable pub trigger_of : List EventLike → TurnTrigger
trigger_of events = scan_back [] (reverse events)

-- `events.length === 0 ? 0 : events[events.length - 1]!.seq + 1`
unfoldable pub next_seq : List EventLike → ℕ
next_seq [] = 0
next_seq (e ∷ []) = e.seq + 1
next_seq (_ ∷ e ∷ es) = next_seq (e ∷ es)
