-- ===== src/Alter/Chat/Calls.antt =====
-- Where `chatFromEvents` looks for the row of a tool's result, and of a part of the thinking: the two
-- maps of the fold beside the log.
use soulnet.Prelude.{ℕ, String, Bool, true, not, ◌&&◌, Option, none, some}
use soulnet.Prelude.{List, [], ◌∷◌, ◌==◌, if◌then◌else◌, get_elem?, length, Bool-cases, inl, inr}
use soulnet.Prelude.{◌≡◌, ap, ◌∙◌, sym, subst}
use soulnet.Prelude.Dict.{lookup, lookup-insert}
use soulnet.Json.{Json}
use soulnet.Alter.{EventLike}
use soulnet.Alter.Chat.{Revise, Chat}
use soulnet.Alter.Chat.Step.{chat_step, chat_fold, call_row, empty_chat}
use soulnet.Alter.Chat.Rows.{lasting_rows, IsPhased, get_elem?-grown, get_elem?-length}
use soulnet.Alter.Chat.Rounds.{calls_send, call_id_of, on_tool_call-row}
use soulnet.Alter.Chat.Log.{chat_step-Grows, chat_step-call, noted_by}

-- The call of a tool that sends, under an id that is not empty.
abbrev is_call : String → EventLike → Bool
is_call id e =
    e.type == "tool/call" && calls_send e && not (call_id_of e == "") && call_id_of e == id

abbrev latest_call : String → Option EventLike → List EventLike → Option EventLike
latest_call id before [] = before
latest_call id before (e ∷ es) = latest_call id (if is_call id e then some e else before) es

-- The last call of that id in the log.
abbrev pub last_call : String → List EventLike → Option EventLike
last_call id es = latest_call id none es

-- The place that a map has for a call: none without a call, and else where the call's own row stands.
pub data IsPlaceOf (parse_json : String → Option Json) (c : Chat)
    : Option EventLike → Option ℕ → Type 0 where
  no_call : IsPlaceOf parse_json c none none
  row_of_call :
      (e : EventLike) (i : ℕ)
      → get_elem? (lasting_rows c.items) i ≡ some (call_row parse_json e)
      → IsPlaceOf parse_json c (some e) (some i)

-- What the maps of the fold are good for.
pub record FindsRows (parse_json : String → Option Json) (es : List EventLike) (c : Chat)
    : Type 0 where
  pub calls : (id : String) → IsPlaceOf parse_json c (last_call id es) (lookup id c.send_index)
  pub phases : IsPhased c

module _ (parse_json : String → Option Json) (revise_of : String → Option (Revise × String))
    (process : Bool) where
  abbrev after : Chat → EventLike → Chat
  after c e = chat_step parse_json revise_of process c e

  IsPlaceOf-kept :
      (c : Chat) (e : EventLike) (o : Option EventLike) (place : Option ℕ)
      → IsPlaceOf parse_json c o place
      → IsPlaceOf parse_json (after c e) o place
  IsPlaceOf-kept c e _ _ no_call = no_call
  IsPlaceOf-kept c e _ _ (row_of_call called i h) =
      let step = chat_step-Grows parse_json revise_of process c e in
      row_of_call called i (get_elem?-grown c.items (after c e).items step.more i _ step.appended h)

  new_row :
      (c : Chat) (e : EventLike)
      → e.type == "tool/call" ≡ true
      → calls_send e ≡ true
      → IsPlaceOf parse_json (after c e) (some e) (some (length c.items))
  new_row c e call sends = row_of_call e (length c.items) (
      get_elem?-length c.items (after c e).items [] _ (
        ap (λ (x : Chat). lasting_rows x.items)
          (chat_step-call parse_json revise_of process c e call)
        ∙ on_tool_call-row parse_json process e c sends))

  IsPlaceOf-noted :
      (id : String) (c : Chat) (e : EventLike) (o : Option EventLike)
      → IsPlaceOf parse_json c o (lookup id c.send_index)
      → IsPlaceOf parse_json
          (after c e)
          (if is_call id e then some e else o)
          (lookup id (noted_by parse_json revise_of process e c))
  IsPlaceOf-noted id c e o h = elim (Bool-cases (e.type == "tool/call")) [
    | inr other ↦ rw other (IsPlaceOf-kept c e o _ h)
    | inl call ↦ elim (Bool-cases (calls_send e)) [
      | inr other ↦ rw (call, other) (IsPlaceOf-kept c e o _ h)
      | inl sends ↦ elim (Bool-cases (call_id_of e == "")) [
        | inl blank ↦ rw (call, sends, blank) (IsPlaceOf-kept c e o _ h)
        | inr named ↦
            rw (call, sends, named, lookup-insert (call_id_of e) id (length c.items) c.send_index)
              (elim (Bool-cases (call_id_of e == id)) [
                | inl same ↦ rw same (new_row c e call sends)
                | inr apart ↦ rw apart (IsPlaceOf-kept c e o _ h)
              ])
      ]
    ]
  ]

  IsPlaceOf-step :
      (id : String) (c : Chat) (e : EventLike) (o : Option EventLike)
      → IsPlaceOf parse_json c o (lookup id c.send_index)
      → IsPlaceOf parse_json
          (after c e)
          (if is_call id e then some e else o)
          (lookup id (after c e).send_index)
  IsPlaceOf-step id c e o h =
      subst
        (λ m. IsPlaceOf parse_json (after c e) (if is_call id e then some e else o) (lookup id m))
        (sym (chat_step-Grows parse_json revise_of process c e).sends) (IsPlaceOf-noted id c e o h)

  IsPlaceOf-fold :
      (id : String) (c : Chat) (es : List EventLike) (o : Option EventLike)
      → IsPlaceOf parse_json c o (lookup id c.send_index)
      → IsPlaceOf parse_json
          (chat_fold parse_json revise_of process c es)
          (latest_call id o es)
          (lookup id (chat_fold parse_json revise_of process c es).send_index)
  unfolding chat_fold
  IsPlaceOf-fold id c [] o h = h
  IsPlaceOf-fold id c (e ∷ es) o h = IsPlaceOf-fold id (after c e) es _ (IsPlaceOf-step id c e o h)

  IsPhased-fold :
      (c : Chat) (es : List EventLike)
      → IsPhased c
      → IsPhased (chat_fold parse_json revise_of process c es)
  unfolding chat_fold
  IsPhased-fold c [] h = h
  IsPhased-fold c (e ∷ es) h =
      IsPhased-fold (after c e) es
        ((chat_step-Grows parse_json revise_of process c e).phased (record { rows = h.rows }))

  -- After any log, the map of the calls has under each id the place of a row of a send with the key,
  -- the time, the addressee and the body of the last call of that id in the log, or nothing if no such
  -- call is in the log (an empty id counts as none); and each phase of the other map has the place of
  -- a row of thinking under the key of that phase.
  pub chat_fold-FindsRows :
      (es : List EventLike)
      → FindsRows parse_json es (chat_fold parse_json revise_of process empty_chat es)
  unfolding lookup
  chat_fold-FindsRows es = record {
    calls = λ id. IsPlaceOf-fold id empty_chat es none no_call;
    phases = IsPhased-fold empty_chat es (record { rows = tt });
  }
