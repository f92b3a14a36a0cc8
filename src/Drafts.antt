-- ===== src/Drafts.antt =====
-- dsh/packages/dsh/src/drafts.ts: the pending drafts, a list in memory that is written through to a
-- file. A method returns the new store beside its result. The file is the value that `JSON.parse`
-- would answer, `none` where there is none or it cannot be parsed. Every write takes as an argument
-- whether the host carried it out: `flush` swallows a failure. Random ids and dates are arguments.
pub mod Store
mod Tests
pub mod Counts
pub mod Reload
use soulnet.Prelude.{ℕ, ◌+◌, ◌-◌, String, Bool, true, false, not, Option, none, some}
use soulnet.Prelude.{
  List, [], ◌∷◌, ◌++◌, ◌==◌, if◌then◌else◌, get_or, filter, find, length, eqb, is_some,
}
use soulnet.Prelude.Dict.{Dict, lookup, insert}
use soulnet.Json.{Json, null, bool, num, str, arr, obj, items, of_items, entries, of_entries}
use soulnet.Json.{Fields, Items, get_field, text_of}

-- `reason` is any string that the file held (the source casts it), `trigger` any object.
pub record PendingDraft : Type 0 where
  pub id : String
  pub fp : String
  pub gid : Option String
  pub name : String
  pub body : String
  pub created_at : String
  pub reason : String
  pub trigger : Option Json
  pub session_id : Option String
  pub agent : Option String

-- `new Date(0).toISOString()`
abbrev pub epoch : String
epoch = "1970-01-01T00:00:00.000Z"

-- `s || fallback`
abbrev pub or_else : String → String → String
or_else s fallback = if s == "" then fallback else s

-- `s === '' ? {} : { key: s }`
abbrev pub unless_empty : String → Option String
unless_empty s = if s == "" then none else some s

-- `typeof value === 'object' && value !== null`, an array included
abbrev pub object_of : Option Json → Option Json
object_of (some (obj fs)) = some (obj fs)
object_of (some (arr vs)) = some (arr vs)
object_of _ = none

-- The record that `normalize` builds from the keys of an object.
draft_of : Fields → Option PendingDraft
draft_of v =
    let id = text_of (get_field "id" v) in
    let fp = text_of (get_field "fp" v) in
    if id == ""
    then none
    else (if fp == ""
        then none
        else some (record {
          id = id;
          fp = fp;
          gid = unless_empty (text_of (get_field "gid" v));
          name = or_else (text_of (get_field "name" v)) fp;
          body = text_of (get_field "body" v);
          created_at = or_else (text_of (get_field "createdAt" v)) epoch;
          reason = or_else (text_of (get_field "reason" v)) "unknown-trigger";
          trigger = object_of (get_field "trigger" v);
          session_id = unless_empty (text_of (get_field "sessionId" v));
          agent = unless_empty (text_of (get_field "agent" v));
        }))

-- An array has none of the keys.
normalize : Json → Option PendingDraft
unfolding draft_of
normalize (obj v) = draft_of v
normalize _ = none

-- `.map(normalize).filter(d => d !== undefined)`
normalize_all : List Json → List PendingDraft
unfolding normalize
normalize_all [] = []
normalize_all (v ∷ vs) = elim (normalize v) [
  | none ↦ normalize_all vs
  | some d ↦ d ∷ normalize_all vs
]

-- A key with a string, left out if it is undefined.
abbrev text_field : String → Option String → Fields → Fields
text_field key none fs = fs
text_field key (some s) fs = Fields.field key (str s) fs

abbrev value_field : String → Option Json → Fields → Fields
value_field key none fs = fs
value_field key (some v) fs = Fields.field key v fs

-- What `JSON.stringify` writes for a draft.
to_json : PendingDraft → Json
to_json d = obj (
    text_field "id" (some d.id) (
      text_field "fp" (some d.fp) (
        text_field "gid" d.gid (
          text_field "name" (some d.name) (
            text_field "body" (some d.body) (
              text_field "createdAt" (some d.created_at) (
                text_field "reason" (some d.reason) (
                  value_field "trigger" d.trigger (
                    text_field "sessionId" d.session_id
                      (text_field "agent" d.agent Fields.end))))))))))

to_json_all : List PendingDraft → List Json
unfolding to_json
to_json_all [] = []
to_json_all (d ∷ ds) = to_json d ∷ to_json_all ds

pub record DraftStore : Type 0 where
  pub drafts : List PendingDraft
  pub loaded : Bool
  pub file : Option Json

-- `Array.isArray(raw.drafts) ? raw.drafts : []`
stored_items : Option Json → List Json
stored_items (some (arr vs)) = items vs
stored_items _ = []

drafts_of_file : Option Json → List PendingDraft
unfolding stored_items normalize_all
drafts_of_file (some (obj v)) = normalize_all (stored_items (get_field "drafts" v))
drafts_of_file _ = []

unfoldable pub load : DraftStore → DraftStore
unfolding drafts_of_file
load s = record s { drafts = drafts_of_file s.file; loaded = true }

flush : Bool → DraftStore → DraftStore
unfolding to_json_all
flush written s =
    if written
    then record s {
      file = some (obj (Fields.field "drafts" (arr (of_items (to_json_all s.drafts))) Fields.end));
    }
    else s

unfoldable pub list : DraftStore → Option String → List PendingDraft
list s none = s.drafts
list s (some fp) = filter (λ d. d.fp == fp) s.drafts

unfoldable pub get : DraftStore → String → Option PendingDraft
get s id = find (λ d. d.id == id) s.drafts

unfoldable pub count : DraftStore → Option String → ℕ
unfolding list
count s fp = length (list s fp)

-- The loop of `counts`. A fingerprint is no name of `Object.prototype`.
unfoldable pub counts_from : Dict ℕ → List PendingDraft → Dict ℕ
counts_from out [] = out
counts_from out (d ∷ ds) = counts_from (insert d.fp (get_or (lookup d.fp out) 0 + 1) out) ds

unfoldable pub counts : DraftStore → Dict ℕ
unfolding counts_from
counts s = counts_from [] s.drafts

-- What a caller of `add` passes: the id and the date may be left out.
pub record NewDraft : Type 0 where
  pub id : Option String
  pub fp : String
  pub gid : Option String
  pub name : String
  pub body : String
  pub created_at : Option String
  pub reason : String
  pub trigger : Option Json
  pub session_id : Option String
  pub agent : Option String

-- `uuid` is the random part of a generated id, `now` the date.
unfoldable pub stored_as : NewDraft → String → String → PendingDraft
stored_as d uuid now = record {
  id = get_or d.id (Prim.Native.String.◌++◌ "draft-" uuid);
  fp = d.fp;
  gid = d.gid;
  name = d.name;
  body = d.body;
  created_at = get_or d.created_at now;
  reason = d.reason;
  trigger = d.trigger;
  session_id = d.session_id;
  agent = d.agent;
}

unfoldable pub add : Bool → DraftStore → NewDraft → String → String → DraftStore × PendingDraft
unfolding flush stored_as
add written s draft uuid now =
    let stored = stored_as draft uuid now in
    (flush written (record s { drafts = s.drafts ++ stored ∷ [] }), stored)

unfoldable pub remove : Bool → DraftStore → String → DraftStore × Option PendingDraft
unfolding flush get
remove written s id = elim (get s id) [
  | none ↦ (s, none)
  | some found ↦
      (flush written (record s { drafts = filter (λ d. not (d.id == id)) s.drafts }), some found)
]

unfoldable pub remove_all : Bool → DraftStore → String → DraftStore × ℕ
unfolding flush
remove_all written s fp =
    let before = length s.drafts in
    let s' = record s { drafts = filter (λ d. not (d.fp == fp)) s.drafts } in
    let unchanged = eqb (length s'.drafts) before in
    (if unchanged then s' else flush written s', before - length s'.drafts)
