-- ===== src/Alter/Chat/Rounds.antt =====
-- What each round of `chatFromEvents` does to the rows: it keeps them and may append one.
use soulnet.Prelude.{ℕ, String, Bool, true, false, not, ◌&&◌, ◌||◌, Option, some, arith}
use soulnet.Prelude.{List, [], ◌∷◌, ◌++◌, ◌==◌, if◌then◌else◌, length}
use soulnet.Prelude.{◌≡◌, refl, sym, append-nil, Bool-cases, Option-cases, inl, inr}
use soulnet.Prelude.Dict.{Dict, lookup, insert}
use soulnet.Prelude.Int.{ℤ}
use soulnet.Json.{Json, at_key, text_of}
use soulnet.Alter.{EventLike, classify_user_message, content_text}
use soulnet.Alter.Latest.{Outcome}
use soulnet.Alter.Chat.{AlterChatItem, Revise, Chat, amend}
use soulnet.Alter.Chat.Thinking.{
  finalized, stopped, extended, append_thinking, stop_all, settle_thinking, on_assistant_chunk,
  on_reasoning_chunks, append_texts,
}
use soulnet.Alter.Chat.Step.{
  on_turn_start, on_turn_end, on_user_message, user_row, on_assistant_message, on_tool_call,
  on_tool_result, settled, call_row,
}
use soulnet.Alter.Chat.Rows.{
  Grows-if, Grows-option, Grows, lasting, lasting_rows, lasting_rows-append, Grows-refl,
  Grows-trans, push-Grows, push_thinking-Grows, amend-Grows,
}

finalized-keeps : (full : String) (x : AlterChatItem) → lasting (finalized full x) ≡ lasting x
finalized-keeps full x = ground arith

stopped-keeps : (x : AlterChatItem) → lasting (stopped x) ≡ lasting x
stopped-keeps x = ground arith

extended-keeps : (delta : String) (x : AlterChatItem) → lasting (extended delta x) ≡ lasting x
extended-keeps delta x = ground arith

settled-keeps :
    (parse_json : String → Option Json) (o : Outcome) (auto : Bool) (x : AlterChatItem)
    → lasting (settled parse_json o auto x) ≡ lasting x
settled-keeps parse_json o auto x = ground arith

pub append_thinking-Grows :
    (phase delta : String) (ts : ℤ) (c : Chat) → Grows c (append_thinking phase delta ts c)
unfolding append_thinking
append_thinking-Grows phase delta ts c = elim (Option-cases (lookup phase c.thinking_index)) [
  | inl new ↦ rw (append_thinking, new) (push_thinking-Grows phase delta ts c)
  | inr (i, old) ↦
      rw (append_thinking, old) (amend-Grows (extended delta) (extended-keeps delta) i c)
]

pub settle_thinking-Grows :
    (phase key full : String) (ts : ℤ) (c : Chat) → Grows c (settle_thinking phase key full ts c)
unfolding settle_thinking
settle_thinking-Grows phase key full ts c = elim (Option-cases (lookup phase c.thinking_index)) [
  | inr (i, old) ↦
      rw (settle_thinking, old) (amend-Grows (finalized full) (finalized-keeps full) i c)
  | inl new ↦ elim (Bool-cases (full == "")) [
    | inl blank ↦ rw (settle_thinking, new, blank) (Grows-refl c)
    | inr text ↦ rw (settle_thinking, new, text) (push-Grows _ c)
  ]
]

pub stop_all-Grows : (m : Dict ℕ) (c : Chat) → Grows c (stop_all m c)
unfolding stop_all
stop_all-Grows [] c = Grows-refl c
stop_all-Grows ((phase, i) ∷ m) c =
    Grows-trans c (amend i stopped c) _ (amend-Grows stopped stopped-keeps i c)
      (stop_all-Grows m (amend i stopped c))

pub on_turn_start-Grows :
    (e : EventLike) (c : Chat) → Grows (record c { running = true }) (on_turn_start e c)
unfolding on_turn_start
on_turn_start-Grows e c = record {
  more = [];
  appended = sym (append-nil (lasting_rows c.items));
  phased = λ s. record { rows = s.rows };
  sends = refl;
  running = refl;
}

pub on_turn_end-Grows :
    (e : EventLike) (c : Chat) → Grows (record c { running = false }) (on_turn_end e c)
unfolding on_turn_end
on_turn_end-Grows e c =
    let c0 : Chat = record c { running = false } in
    let c' = stop_all c.thinking_index c0 in
    let stops = stop_all-Grows c.thinking_index c0 in
    Grows-if _ c0 c' _ stops (Grows-trans c0 c' _ stops (push-Grows _ c'))

pub on_assistant_message-Grows :
    (process : Bool) (e : EventLike) (c : Chat) → Grows c (on_assistant_message process e c)
unfolding on_assistant_message
on_assistant_message-Grows process e c =
    let settles = Grows-if process c _ c (settle_thinking-Grows _ _ _ e.time c) (Grows-refl c) in
    Grows-if _ c _ _ settles (Grows-trans c _ _ settles (push-Grows _ _))

pub on_assistant_chunk-Grows :
    (process : Bool) (e : EventLike) (c : Chat) → Grows c (on_assistant_chunk process e c)
unfolding on_assistant_chunk
on_assistant_chunk-Grows process e c = Grows-if _ c c _ (Grows-refl c) (
    Grows-if _ c _ _ (settle_thinking-Grows _ _ _ e.time c)
      (Grows-if _ c c _ (Grows-refl c) (append_thinking-Grows _ _ e.time c)))

pub append_texts-Grows :
    (texts : List String) (phase : String) (ts : ℤ) (c : Chat)
    → Grows c (append_texts texts phase ts c)
append_texts-Grows [] phase ts c = Grows-refl c
append_texts-Grows (t ∷ texts) phase ts c = append_thinking-Grows phase _ ts c

pub on_reasoning_chunks-Grows :
    (process : Bool) (e : EventLike) (c : Chat) → Grows c (on_reasoning_chunks process e c)
unfolding on_reasoning_chunks
on_reasoning_chunks-Grows process e c =
    Grows-if (not process) c c _ (Grows-refl c) (append_texts-Grows _ _ e.time c)

pub on_user_message-Grows :
    (revise_of : String → Option (Revise × String)) (e : EventLike) (c : Chat)
    → Grows c (on_user_message revise_of e c)
unfolding on_user_message
on_user_message-Grows revise_of e c =
    elim (Option-cases (
      user_row revise_of (classify_user_message e.event_data)
        (content_text (at_key "content" (some e.event_data))) e)) [
          | inl no_row ↦ rw (on_user_message, no_row) (Grows-refl c)
          | inr (row, e') ↦ rw (on_user_message, e') (push-Grows row c)
        ]

-- The call of one of the two tools that send.
abbrev pub calls_send : EventLike → Bool
calls_send e =
    let name = text_of (at_key "name" (some e.event_data)) in
    name == "soulmirror_send_message" || name == "soulmirror_send_group_message"

abbrev pub call_id_of : EventLike → String
call_id_of e = text_of (at_key "callId" (some e.event_data))

-- the map behind a call, at any event of another type
abbrev pub noted : EventLike → Chat → Dict ℕ
noted e c =
    if calls_send e && not (call_id_of e == "")
    then insert (call_id_of e) (length c.items) c.send_index
    else c.send_index

module _ (parse_json : String → Option Json) where
  pub on_tool_call-Grows :
      (process : Bool) (e : EventLike) (c : Chat)
      → Grows (record c { send_index = noted e c }) (on_tool_call parse_json process e c)
  unfolding on_tool_call
  on_tool_call-Grows process e c = elim (Bool-cases (calls_send e)) [
    | inl sends ↦ elim (Bool-cases (call_id_of e == "")) [
      | inl blank ↦ rw (sends, blank) (push-Grows (call_row parse_json e) c)
      | inr named ↦
          rw (sends, named)
            (push-Grows (call_row parse_json e)
              (record c { send_index = insert (call_id_of e) (length c.items) c.send_index }))
    ]
    | inr other ↦ rw other (Grows-if process c _ c (push-Grows _ c) (Grows-refl c))
  ]

  -- A call that sends puts its row behind the others.
  pub on_tool_call-row :
      (process : Bool) (e : EventLike) (c : Chat)
      → calls_send e ≡ true
      → lasting_rows (on_tool_call parse_json process e c).items
        ≡ lasting_rows c.items ++ call_row parse_json e ∷ []
  unfolding on_tool_call
  on_tool_call-row process e c sends = elim (Bool-cases (call_id_of e == "")) [
    | inl blank ↦ rw (sends, blank) (lasting_rows-append c.items (call_row parse_json e ∷ []))
    | inr named ↦ rw (sends, named) (lasting_rows-append c.items (call_row parse_json e ∷ []))
  ]

  pub on_tool_result-Grows : (e : EventLike) (c : Chat) → Grows c (on_tool_result parse_json e c)
  unfolding on_tool_result
  on_tool_result-Grows e c =
      Grows-option _ c _ (λ i. amend-Grows _ (settled-keeps parse_json _ _) i c)
