-- ===== src/Alter/Latest.antt =====
-- dsh/packages/dsh/src/alter-state.ts: `latestFromEvents`, the alter's latest words, send and turn,
-- and how a tool's result is read back. `JSON.parse` is the host's: `none` stands for a text that it
-- refuses, as `parseJson` answers undefined there.
use soulnet.Prelude.{ℕ, String, Bool, true, false, not, ◌&&◌, ◌||◌, Option, none, some}
use soulnet.Prelude.{List, [], ◌∷◌, ◌==◌, if◌then◌else◌, is_some}
use soulnet.Prelude.Int.{ℤ, pos}
use soulnet.Prelude.Text.{slice}
use soulnet.Json.{Json, at_key, is_text, is_true, text_of, num_of, array_of}
use soulnet.Policy.{TurnTrigger}
use soulnet.FriendSettings.{over}
use soulnet.Drafts.{or_else, unless_empty}
use soulnet.Alter.{
  EventLike, content_text, string_of, classify_user_message, UserMessage, owner, trigger_of,
  next_seq,
}

pub record AlterNote : Type 0 where
  pub text : String
  pub ts : ℤ
  pub seq : ℕ
  pub turn : ℤ

pub record AlterInstruction : Type 0 where
  pub text : String
  pub ts : ℤ
  pub seq : ℕ

pub data SendOutcome : Type 0 where
  sent draft_queued refused failed : SendOutcome

pub record AlterSend : Type 0 where
  pub body : String
  pub fingerprint : Option String
  pub ts : ℤ
  pub outcome : Option SendOutcome
  pub gate : Option String
  pub draft_id : Option String
  pub detail : Option String

-- `is_open` is the key `open`.
pub record AlterTurn : Type 0 where
  pub turn : ℤ
  pub reason : String
  pub failed : Bool
  pub ts : ℤ
  pub message : Option String
  pub is_open : Bool

pub record AlterLatest : Type 0 where
  pub instruction : Option AlterInstruction
  pub note : Option AlterNote
  pub sent : Option AlterSend
  pub turn : Option AlterTurn
  pub trigger : TurnTrigger
  pub seq : ℕ

-- The answer of `outcomeOf`.
pub record Outcome : Type 0 where
  pub outcome : SendOutcome
  pub gate : Option String
  pub draft_id : Option String
  pub detail : Option String

-- `blocks[0]` of the message of a result
abbrev pub first_block : Option Json → Option Json
first_block message = elim (array_of (at_key "content" message)) [ [] ↦ none | b ∷ _ ↦ some b ]

module _ (parse_json : String → Option Json) where
  unfoldable pub outcome_of : Json → Outcome
  outcome_of result =
      let first = first_block (at_key "message" (some result)) in
      let result_text = content_text (at_key "content" first) in
      let parsed = parse_json result_text in
      let error = at_key "error" (some result) in
      let gate = unless_empty (text_of (at_key "gate" parsed)) in
      let reported = text_of (at_key "outcome" parsed) in
      if is_some error || is_true (at_key "isError" first)
      then record {
        outcome = failed;
        gate = gate;
        draft_id = none;
        detail = unless_empty (
            or_else (text_of (at_key "message" error))
              (or_else (text_of (at_key "message" parsed)) (slice 200 result_text)));
      }
      else (if is_true (at_key "ok" parsed) && reported == "draft-queued"
          then record {
            outcome = draft_queued;
            gate = gate;
            draft_id = unless_empty (text_of (at_key "draftId" parsed));
            detail = none;
          }
          else (if is_true (at_key "ok" parsed)
              then record { outcome = sent; gate = gate; draft_id = none; detail = none }
              else record {
                outcome = refused;
                gate = gate;
                draft_id = none;
                detail = unless_empty (or_else (text_of (at_key "message" parsed)) reported);
              }))

unfoldable pub turn_end_message : Option Json → Option String
turn_end_message reason =
    let cause = at_key "reason" reason in
    over (string_of cause) (
      over (string_of (at_key "message" reason)) (
        over (string_of (at_key "message" cause))
          (string_of (at_key "message" (at_key "error" reason)))))

-- The variables of the fold.
pub record Fold : Type 0 where
  pub instruction : Option AlterInstruction
  pub note : Option AlterNote
  pub sent : Option AlterSend
  pub send_call_id : Option String
  pub turn : Option AlterTurn

abbrev turn_number : Option AlterTurn → ℤ
turn_number none = pos 0
turn_number (some t) = t.turn

abbrev pub is_owner : UserMessage → Bool
is_owner owner = true
is_owner _ = false

-- `kind` of a turn's end: `str(reason['kind']) || 'unknown'`
abbrev pub end_kind : Option Json → String
end_kind reason = or_else (text_of (at_key "kind" reason)) "unknown"

abbrev pub with_outcome : AlterSend → Outcome → AlterSend
with_outcome s o = record s {
  outcome = some o.outcome;
  gate = over o.gate s.gate;
  draft_id = over o.draft_id s.draft_id;
  detail = over o.detail s.detail;
}

module _ (parse_json : String → Option Json) where
  abbrev settle : Option AlterSend → Option String → Json → Option AlterSend
  settle none call_id result = none
  settle (some s) none result = some s
  settle (some s) (some call_id) result =
      if text_of (at_key "callId" (at_key "source" (at_key "message" (some result)))) == call_id
      then some (with_outcome s (outcome_of parse_json result))
      else some s

  -- the branches for the messages and the calls of a turn
  unfoldable pub latest_inside : Fold → EventLike → Fold
  latest_inside f e =
      let d = some e.event_data in
      let own_text = content_text (at_key "content" d) in
      let words = content_text (at_key "content" (at_key "message" d)) in
      let args = parse_json (text_of (at_key "arguments" d)) in
      if e.type == "user/message"
      then (if is_owner (classify_user_message e.event_data) && not (own_text == "")
          then record f {
            instruction = some (record { text = own_text; ts = e.time; seq = e.seq });
          }
          else f)
      else (if e.type == "assistant/message"
          then (if words == "" then f else record f {
            note = some (record {
              text = words;
              ts = e.time;
              seq = e.seq;
              turn = num_of (at_key "turn" d) (turn_number f.turn);
            });
          })
          else (if e.type == "tool/call"
              then (if is_text "soulmirror_send_message" (at_key "name" d)
                  then record f {
                    send_call_id = some (text_of (at_key "callId" d));
                    sent = some (record {
                      body = text_of (at_key "body" args);
                      fingerprint = unless_empty (text_of (at_key "fingerprint" args));
                      ts = e.time;
                      outcome = none;
                      gate = none;
                      draft_id = none;
                      detail = none;
                    });
                  }
                  else f)
              else (if e.type == "tool/result"
                  then record f { sent = settle f.sent f.send_call_id e.event_data }
                  else f)))

  unfoldable pub latest_step : Fold → EventLike → Fold
  latest_step f e =
      let d = some e.event_data in
      let reason = at_key "reason" d in
      let kind = end_kind reason in
      if e.type == "turn/start"
      then record f {
        turn = some (record {
          turn = num_of (at_key "turn" d) (pos 0);
          reason = "open";
          failed = false;
          ts = e.time;
          message = none;
          is_open = true;
        });
      }
      else (if e.type == "turn/end"
          then record f {
            turn = some (record {
              turn = num_of (at_key "turn" d) (turn_number f.turn);
              reason = kind;
              failed = not (kind == "completed");
              ts = e.time;
              message = turn_end_message reason;
              is_open = false;
            });
          }
          else latest_inside f e)

  unfoldable pub latest_fold : Fold → List EventLike → Fold
  unfolding latest_step
  latest_fold f [] = f
  latest_fold f (e ∷ es) = latest_fold (latest_step f e) es

  unfoldable pub latest_from_events : List EventLike → AlterLatest
  unfolding latest_fold
  latest_from_events events =
      let f =
        latest_fold
          (record {
            instruction = none;
            note = none;
            sent = none;
            send_call_id = none;
            turn = none;
          })
          events in
      record {
        instruction = f.instruction;
        note = f.note;
        sent = f.sent;
        turn = f.turn;
        trigger = trigger_of events;
        seq = next_seq events;
      }
