-- ===== src/Memory/Store.antt =====
-- dsh/packages/dsh/src/memory/store.ts: MemoryStore, with the two tables of its database. An
-- operation that throws answers `none`. What SQLite does is written out where it is the meaning of
-- a statement; the rows that are listed or recalled are in Recall.
use soulnet.Prelude.{ℕ, ◌+◌, String, Bool, true, false, not, ◌&&◌, Option, none, some}
use soulnet.Prelude.{List, [], ◌∷◌, ◌++◌, ◌==◌, if◌then◌else◌, get_or, find, filter, any, map}
use soulnet.Prelude.Int.{ℤ, pos}
use soulnet.Prelude.Text.{trim}
use soulnet.Memory.{
  MemoryKind, MemoryScope, Origin, NewMemory, MemoryRecord, segment, scope_kind, scope_key,
  decode_scope,
}

-- A row of `memories`.
pub record Row : Type 0 where
  pub id : ℕ
  pub uid : String
  pub kind : MemoryKind
  pub content : String
  pub kind_of_scope : String
  pub key_of_scope : Option String
  pub source_ch : String
  pub source_ref : String
  pub weight : ℤ
  pub origin : Origin
  pub created_at : ℕ
  pub last_hit_at : Option ℕ
  pub hit_count : ℕ

-- `next_id` is what AUTOINCREMENT gives out next; `fts` has the rows (uid, content) of
-- `memories_fts`.
pub record MemoryStore : Type 0 where
  pub memories : List Row
  pub fts : List (String × String)
  pub next_id : ℕ

abbrev pub new_store : MemoryStore
new_store = record { memories = []; fts = []; next_id = 1 }

unfoldable pub row_to_record : Row → MemoryRecord
unfolding decode_scope
row_to_record row = record {
  id = row.id;
  uid = row.uid;
  kind = row.kind;
  content = row.content;
  scope = decode_scope row.kind_of_scope row.key_of_scope;
  source_ch = row.source_ch;
  source_ref = row.source_ref;
  weight = row.weight;
  origin = row.origin;
  created_at = row.created_at;
  last_hit_at = row.last_hit_at;
  hit_count = row.hit_count;
}

-- `a IS b`
abbrev pub is_same : Option String → Option String → Bool
is_same none none = true
is_same (some a) (some b) = a == b
is_same _ _ = false

unfoldable pub has_uid : String → Row → Bool
has_uid uid row = row.uid == uid

abbrev pub has_content : MemoryScope → String → Row → Bool
has_content scope content row =
    row.kind_of_scope == scope_kind scope
    && is_same row.key_of_scope (scope_key scope)
    && row.content == content

-- the row that an INSERT of `add` makes
abbrev pub row_of : ℕ → String → ℕ → String → NewMemory → Row
row_of id uid now content input = record {
  id = id;
  uid = uid;
  kind = input.kind;
  content = content;
  kind_of_scope = scope_kind input.scope;
  key_of_scope = scope_key input.scope;
  source_ch = input.source_ch;
  source_ref = get_or input.source_ref "";
  weight = get_or input.weight (pos 1);
  origin = get_or input.origin Origin.auto;
  created_at = now;
  last_hit_at = none;
  hit_count = 0;
}

unfoldable pub get : MemoryStore → String → Option MemoryRecord
unfolding row_to_record has_uid
get s uid = elim (find (has_uid uid) s.memories) [
  | none ↦ none
  | some row ↦ some (row_to_record row)
]

-- What an UPDATE writes into a row.
abbrev pub edited : String → Option MemoryScope → Row → Row
edited content none row = record row { content = content }
edited content (some scope) row = record row {
  content = content;
  kind_of_scope = scope_kind scope;
  key_of_scope = scope_key scope;
}

-- A statement that writes. The database carries out each as a whole, but no transaction holds the
-- statements of one call together.
pub data Statement : Type 0 where
  insert_row : Row → Statement
  insert_words : String → String → Statement
  delete_row : String → Statement
  delete_words : String → Statement
  update_row : String → String → Option MemoryScope → Statement

unfoldable pub execute : Statement → MemoryStore → MemoryStore
unfolding has_uid
execute (insert_row row) s = record s { memories = s.memories ++ row ∷ []; next_id = s.next_id + 1 }
execute (insert_words uid words) s = record s { fts = s.fts ++ (uid, words) ∷ [] }
execute (delete_row uid) s = record s { memories = filter (λ r. not (has_uid uid r)) s.memories }
execute (delete_words uid) s = record s { fts = filter (λ f. not (f.0 == uid)) s.fts }
execute (update_row uid content scope) s = record s {
  memories = map (λ r. if has_uid uid r then edited content scope r else r) s.memories;
}

-- The statements of a call, one after the other.
unfoldable pub execute_all : List Statement → MemoryStore → MemoryStore
unfolding execute
execute_all [] s = s
execute_all (w ∷ ws) s = execute_all ws (execute w s)

unfoldable pub removal : MemoryStore → String → List Statement
unfolding has_uid
removal s uid = if any (has_uid uid) s.memories then delete_row uid ∷ delete_words uid ∷ [] else []

-- `remove`, when no statement throws
unfoldable pub remove : MemoryStore → String → MemoryStore × Bool
unfolding has_uid removal execute_all
remove s uid = (execute_all (removal s uid) s, any (has_uid uid) s.memories)

module _ (to_lower_case : String → String) where
  abbrev pub addition : Row → List Statement
  addition row = insert_row row ∷ insert_words row.uid (segment to_lower_case row.content) ∷ []

  abbrev pub revision : String → String → Option MemoryScope → List Statement
  revision uid next scope =
      update_row uid next scope
      ∷ delete_words uid
      ∷ insert_words uid (segment to_lower_case next)
      ∷ []

  -- `add`, when no statement throws but the first INSERT, by the constraint on `uid`; `uid` is the
  -- fresh UUID and `now` the clock.
  unfoldable pub add : NewMemory → String → ℕ → MemoryStore → Option (MemoryStore × MemoryRecord)
  unfolding segment row_to_record has_uid execute_all
  add input uid now s =
      let content = trim input.content in
      if content == "" then none else elim (find (has_content input.scope content) s.memories) [
        | some existing ↦ some (s, row_to_record existing)
        | none ↦
            if any (has_uid uid) s.memories
            then none
            else (let row = row_of s.next_id uid now content input in
                some (execute_all (addition row) s, row_to_record row))
      ]

  -- `update`, when no statement throws
  unfoldable pub update :
      MemoryStore
      → String
      → String
      → Option MemoryScope
      → Option (MemoryStore × Option MemoryRecord)
  unfolding segment get has_uid execute_all
  update s uid content scope =
      let next = trim content in
      if next == ""
      then none
      else (if any (has_uid uid) s.memories
          then (let s' = execute_all (revision uid next scope) s in some (s', get s' uid))
          else some (s, none))

  -- The statements that an `add` or an `update` makes in a store.
  unfoldable pub adding : NewMemory → String → ℕ → MemoryStore → List Statement
  unfolding segment has_uid
  adding input uid now s =
      let content = trim input.content in
      if content == "" then [] else elim (find (has_content input.scope content) s.memories) [
        | some existing ↦ []
        | none ↦
            if any (has_uid uid) s.memories
            then []
            else addition (row_of s.next_id uid now content input)
      ]

  unfoldable pub updating : MemoryStore → String → String → Option MemoryScope → List Statement
  unfolding segment has_uid
  updating s uid content scope =
      let next = trim content in
      if next == ""
      then []
      else (if any (has_uid uid) s.memories then revision uid next scope else [])
