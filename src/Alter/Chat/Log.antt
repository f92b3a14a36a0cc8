-- ===== src/Alter/Chat/Log.antt =====
-- The whole of `chatFromEvents` over a log and a longer one, and beside `latestFromEvents`.
use soulnet.Prelude.{ℕ, arith, eq_iff, String, Bool, true, false, not, ◌&&◌, Option, none, some}
use soulnet.Prelude.{List, [], ◌∷◌, ◌++◌, ◌==◌, if◌then◌else◌}
use soulnet.Prelude.{◌≡◌, refl, sym, ap, ◌∙◌, append-nil, append_assoc, Bool-cases, inl, inr}
use soulnet.Prelude.Dict.{Dict}
use soulnet.Json.{is_text, Json, at_key}
use soulnet.Alter.{EventLike, classify_user_message, content_text}
use soulnet.Alter.Latest.{
  is_owner, Fold, AlterTurn, latest_inside, latest_step, latest_fold, latest_from_events,
}
use soulnet.Alter.Chat.{AlterChatItem, Revise, Chat}
use soulnet.Alter.Chat.Step.{on_tool_call, chat_step, chat_fold, empty_chat, chat_from_events}
use soulnet.Alter.Chat.Rows.{Grows-if, Grows, lasting_rows, Grows-refl}
use soulnet.Alter.Chat.Rounds.{
  on_turn_start-Grows, on_turn_end-Grows, on_assistant_message-Grows, on_assistant_chunk-Grows,
  on_reasoning_chunks-Grows, on_user_message-Grows, on_tool_call-Grows, on_tool_result-Grows, noted,
}

-- whether a turn is open behind an event
abbrev runs : EventLike → Bool → Bool
runs e before =
    if e.type == "turn/start" then true else (if e.type == "turn/end" then false else before)

-- `turn.open`, false before the first turn
abbrev pub open_of : Option AlterTurn → Bool
open_of none = false
open_of (some t) = t.is_open

-- the latest turn of the fold is open, or not
record IsOpenAs (o : Bool) (f : Fold) : Type 0 where
  as_said : open_of f.turn ≡ o

IsOpenAs-if :
    (o b : Bool) (f g : Fold) → IsOpenAs o f → IsOpenAs o g → IsOpenAs o (if b then f else g)
IsOpenAs-if o true f g h k = h
IsOpenAs-if o false f g h k = k

kept : {o : Bool} (f : Fold) → open_of f.turn ≡ o → IsOpenAs o f
kept f h = record { as_said = h }

latest_inside-IsOpenAs :
    (parse_json : String → Option Json) (f : Fold) (e : EventLike)
    → IsOpenAs (open_of f.turn) (latest_inside parse_json f e)
unfolding latest_inside
latest_inside-IsOpenAs parse_json f e = elim (Bool-cases (e.type == "user/message")) [
  | inl t ↦
      rw t
        (elim (Bool-cases (
          is_owner (classify_user_message e.event_data)
          && not (content_text (at_key "content" (some e.event_data)) == ""))) [
            | inl b ↦ rw b (kept _ refl)
            | inr b ↦ rw b (kept _ refl)
          ])
  | inr t ↦ elim (Bool-cases (e.type == "assistant/message")) [
    | inl u ↦
        rw (t, u)
          (elim (Bool-cases
            (content_text (at_key "content" (at_key "message" (some e.event_data))) == "")) [
              | inl b ↦ rw b (kept _ refl)
              | inr b ↦ rw b (kept _ refl)
            ])
    | inr u ↦ elim (Bool-cases (e.type == "tool/call")) [
      | inl v ↦
          rw (t, u, v)
            (elim (Bool-cases
              (is_text "soulmirror_send_message" (at_key "name" (some e.event_data)))) [
                | inl b ↦ rw b (kept _ refl)
                | inr b ↦ rw b (kept _ refl)
              ])
      | inr v ↦ elim (Bool-cases (e.type == "tool/result")) [
        | inl r ↦ rw (t, u, v, r) (kept _ refl)
        | inr r ↦ rw (t, u, v, r) (kept _ refl)
      ]
    ]
  ]
]

latest_step-IsOpenAs :
    (parse_json : String → Option Json) (f : Fold) (e : EventLike)
    → IsOpenAs (runs e (open_of f.turn)) (latest_step parse_json f e)
unfolding latest_step
latest_step-IsOpenAs parse_json f e = elim (Bool-cases (e.type == "turn/start")) [
  | inl start ↦ rw start (kept _ refl)
  | inr other ↦ elim (Bool-cases (e.type == "turn/end")) [
    | inl end ↦ rw (other, end) (kept _ refl)
    | inr still ↦ rw (other, still) (latest_inside-IsOpenAs parse_json f e)
  ]
]

latest_step-open :
    (parse_json : String → Option Json) (f : Fold) (e : EventLike)
    → open_of (latest_step parse_json f e).turn ≡ runs e (open_of f.turn)
latest_step-open parse_json f e = (latest_step-IsOpenAs parse_json f e).as_said

module _ (parse_json : String → Option Json) (revise_of : String → Option (Revise × String))
    (process : Bool) where
  -- what a step does to the map of the calls
  abbrev pub noted_by : EventLike → Chat → Dict ℕ
  noted_by e c = if e.type == "tool/call" then noted e c else c.send_index

  other_type :
      (e : EventLike) (k : String)
      → e.type == "tool/call" ≡ true
      → k == "tool/call" ≡ false
      → e.type == k ≡ false
  other_type e k call other =
      ground (arith, call, other, eq_iff e.type "tool/call", eq_iff e.type k)

  pub chat_step-call :
      (c : Chat) (e : EventLike)
      → e.type == "tool/call" ≡ true
      → chat_step parse_json revise_of process c e ≡ on_tool_call parse_json process e c
  unfolding chat_step
  chat_step-call c e call = rw (
    other_type e "turn/start" call refl,
    other_type e "turn/end" call refl,
    other_type e "user/message" call refl,
    other_type e "assistant/message" call refl,
    other_type e "assistant/chunk" call refl,
    other_type e "reasoning-chunks" call refl,
    call,
  )

  pub chat_step-Grows :
      (c : Chat) (e : EventLike)
      → Grows
          (record c { running = runs e c.running; send_index = noted_by e c })
          (chat_step parse_json revise_of process c e)
  unfolding chat_step
  chat_step-Grows c e = elim (Bool-cases (e.type == "tool/call")) [
    | inl call ↦
        rw
          (
            other_type e "turn/start" call refl,
            other_type e "turn/end" call refl,
            other_type e "user/message" call refl,
            other_type e "assistant/message" call refl,
            other_type e "assistant/chunk" call refl,
            other_type e "reasoning-chunks" call refl,
            call,
          )
          (on_tool_call-Grows parse_json process e c)
    | inr no_call ↦ elim (Bool-cases (e.type == "turn/start")) [
      | inl start ↦ rw (no_call, start) (on_turn_start-Grows e c)
      | inr other ↦ elim (Bool-cases (e.type == "turn/end")) [
        | inl end ↦ rw (no_call, other, end) (on_turn_end-Grows e c)
        | inr still ↦
            rw (no_call, other, still)
              (Grows-if _ c _ _ (on_user_message-Grows revise_of e c) (
                Grows-if _ c _ _ (on_assistant_message-Grows process e c) (
                  Grows-if _ c _ _ (on_assistant_chunk-Grows process e c) (
                    Grows-if _ c _ _ (on_reasoning_chunks-Grows process e c)
                      (Grows-if _ c _ _ (on_tool_result-Grows parse_json e c) (Grows-refl c))))))
      ]
    ]
  ]

  chat_fold-rows :
      (c : Chat) (es : List EventLike)
      → (new : List AlterChatItem) × (lasting_rows
            (chat_fold parse_json revise_of process c es).items
          ≡ lasting_rows c.items ++ new)
  unfolding chat_fold
  chat_fold-rows c [] = ([], sym (append-nil (lasting_rows c.items)))
  chat_fold-rows c (e ∷ es) =
      let step = chat_step-Grows c e in
      let (new, rest) = chat_fold-rows (chat_step parse_json revise_of process c e) es in
      (
        step.more ++ new,
        rest ∙ ap (λ l. l ++ new) step.appended ∙ append_assoc (lasting_rows c.items) step.more new,
      )

  chat_fold-append :
      (c : Chat) (es more : List EventLike)
      → chat_fold parse_json revise_of process c (es ++ more)
        ≡ chat_fold parse_json revise_of process (chat_fold parse_json revise_of process c es) more
  unfolding chat_fold
  chat_fold-append c [] more = refl
  chat_fold-append c (e ∷ es) more =
      chat_fold-append (chat_step parse_json revise_of process c e) es more

  -- The transcript of a longer log has the rows of the shorter one first, each in its place. Of a
  -- send only the outcome may have changed, of the thinking only its text and whether it streams, and
  -- of every other row nothing.
  pub chat_from_events-append :
      (es more : List EventLike)
      → (new : List AlterChatItem) × (lasting_rows
            (chat_from_events parse_json revise_of process (es ++ more)).items
          ≡ lasting_rows (chat_from_events parse_json revise_of process es).items ++ new)
  unfolding chat_from_events
  chat_from_events-append es more =
      let (new, e) = chat_fold-rows (chat_fold parse_json revise_of process empty_chat es) more in
      (new, ap (λ (c : Chat). lasting_rows c.items) (chat_fold-append empty_chat es more) ∙ e)

  chat_fold-running :
      (c : Chat) (f : Fold) (es : List EventLike)
      → c.running ≡ open_of f.turn
      → (chat_fold parse_json revise_of process c es).running
        ≡ open_of (latest_fold parse_json f es).turn
  unfolding chat_fold latest_fold
  chat_fold-running c f [] h = h
  chat_fold-running c f (e ∷ es) h =
      chat_fold-running (chat_step parse_json revise_of process c e) (latest_step parse_json f e) es
        ((chat_step-Grows c e).running ∙ ap (runs e) h ∙ sym (latest_step-open parse_json f e))

  -- The transcript is running exactly when the latest turn of `latestFromEvents` is open.
  pub chat_from_events-running :
      (es : List EventLike)
      → (chat_from_events parse_json revise_of process es).running
        ≡ open_of (latest_from_events parse_json es).turn
  unfolding chat_from_events latest_from_events
  chat_from_events-running es = chat_fold-running empty_chat _ es refl
