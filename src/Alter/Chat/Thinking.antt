-- ===== src/Alter/Chat/Thinking.antt =====
-- dsh/packages/dsh/src/alter-state.ts: the thinking of the model in the transcript of
-- `chatFromEvents`, one row for each turn and step.
use soulnet.Prelude.{ℕ, String, Bool, true, false, not, ◌&&◌, none, some}
use soulnet.Prelude.{List, [], ◌∷◌, ◌==◌, if◌then◌else◌, get_or, length}
use soulnet.Prelude.Int.{ℤ, pos}
use soulnet.Prelude.Text.{◌⧺◌, join}
use soulnet.Prelude.Dict.{Dict, lookup, insert}
use soulnet.Json.{Json, str, at_key, text_of, num_of, array_of, decimal}
use soulnet.Drafts.{or_else}
use soulnet.Alter.{EventLike}
use soulnet.Alter.Chat.{AlterChatItem, Chat, push, amend, thinking}

-- `${name}:${n}`
abbrev pub keyed : String → ℤ → String
keyed name n = name ⧺ ":" ⧺ decimal n

-- `{ ...item, streaming: false }` of a thinking item, with the full text if it is given
abbrev pub finalized : String → AlterChatItem → AlterChatItem
finalized full (thinking i) =
    thinking (record i { text = if full == "" then i.text else full; streaming = some false })
finalized full i = i

-- `if (prev.kind === 'thinking' && prev.streaming === true) items[index] = { ...prev, streaming: false }`
abbrev pub stopped : AlterChatItem → AlterChatItem
stopped (thinking i) =
    thinking (if get_or i.streaming false then record i { streaming = some false } else i)
stopped i = i

abbrev pub extended : String → AlterChatItem → AlterChatItem
extended delta (thinking i) = thinking (record i { text = i.text ⧺ delta })
extended delta i = i

unfoldable pub append_thinking : String → String → ℤ → Chat → Chat
append_thinking phase delta ts c = elim (lookup phase c.thinking_index) [
  | some i ↦ amend i (extended delta) c
  | none ↦
      record (push
        (thinking (record { key = "think:" ⧺ phase; ts = ts; text = delta; streaming = some true }))
        c) { thinking_index = insert phase (length c.items) c.thinking_index }
]

-- The loop over `thinkingIndexByPhase.values()` at the end of a turn.
unfoldable pub stop_all : Dict ℕ → Chat → Chat
stop_all [] c = c
stop_all ((phase, i) ∷ m) c = stop_all m (amend i stopped c)

abbrev pub phase_of : EventLike → Chat → String
phase_of e c =
    let d = some e.event_data in
    decimal (num_of (at_key "turn" d) c.turn) ⧺ ":" ⧺ decimal (num_of (at_key "step" d) (pos 0))

-- The thinking of a message or of a block, in the row of its phase or in one of its own.
unfoldable pub settle_thinking : String → String → String → ℤ → Chat → Chat
settle_thinking phase key full ts c = elim (lookup phase c.thinking_index) [
  | some i ↦ amend i (finalized full) c
  | none ↦
      if full == ""
      then c
      else push (thinking (record { key = key; ts = ts; text = full; streaming = none })) c
]

unfoldable pub on_assistant_chunk : Bool → EventLike → Chat → Chat
unfolding settle_thinking append_thinking
on_assistant_chunk process e c =
    let chunk = at_key "chunk" (some e.event_data) in
    let block = at_key "block" chunk in
    let phase = phase_of e c in
    let kind = text_of (at_key "type" chunk) in
    let delta =
      if kind == "reasoning-delta"
      then or_else (text_of (at_key "text" chunk))
          (or_else (text_of (at_key "textDelta" chunk)) (text_of (at_key "delta" chunk)))
      else "" in
    if not process
    then c
    else (if kind == "block-end" && text_of (at_key "type" block) == "reasoning"
        then settle_thinking phase ("think:" ⧺ phase ⧺ ":" ⧺ decimal (pos e.seq))
            (text_of (at_key "text" block)) e.time c
        else (if delta == "" then c else append_thinking phase delta e.time c))

-- `.filter(x => typeof x === 'string')`
texts_of : List Json → List String
texts_of [] = []
texts_of (str s ∷ vs) = s ∷ texts_of vs
texts_of (_ ∷ vs) = texts_of vs

-- `if (texts.length === 0) break`, else the texts joined
abbrev pub append_texts : List String → String → ℤ → Chat → Chat
append_texts [] phase ts c = c
append_texts (t ∷ texts) phase ts c = append_thinking phase (join "" (t ∷ texts)) ts c

unfoldable pub on_reasoning_chunks : Bool → EventLike → Chat → Chat
unfolding texts_of
on_reasoning_chunks process e c =
    let texts = texts_of (array_of (at_key "texts" (some e.event_data))) in
    if not process then c else append_texts texts (phase_of e c) e.time c
