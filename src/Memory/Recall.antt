-- ===== src/Memory/Recall.antt =====
-- dsh/packages/dsh/src/memory/store.ts: what MemoryStore lists and recalls, for the scopes that are
-- allowed. A fresh uid has one row of the index at most, so that the join gives each row once.
use soulnet.Prelude.{
  ℕ, ◌+◌, ltb, eqb, String, Bool, true, false, not, ◌&&◌, ◌||◌, Option, none, some,
}
use soulnet.Prelude.{
  List, [], ◌∷◌, ◌==◌, if◌then◌else◌, get_or, filter, any, map, take, equals, is_some, length,
}
use soulnet.Prelude.Int.{ℤ, pos, negsuc}
use soulnet.Prelude.Text.{trim}
use soulnet.Memory.{MemoryRecord, AllowScopes, segment}
use soulnet.Memory.Store.{Row, MemoryStore, row_to_record}

-- `scope_kind = kind AND scope_key = ?`, when the parameter is given; NULL equals nothing
abbrev pub in_scope : String → Option String → Row → Bool
in_scope kind none row = false
in_scope kind (some key) row = row.kind_of_scope == kind && equals row.key_of_scope key

abbrev allows_global : AllowScopes → Bool
allows_global allow = get_or allow.global false

-- `sc.sql === '0'`
abbrev pub allows_none : AllowScopes → Bool
allows_none allow =
    not (allows_global allow || is_some allow.agent || is_some allow.friend || is_some allow.group)

-- the rows that `scopeClause` lets through
unfoldable pub scope_clause : AllowScopes → Row → Bool
scope_clause allow row =
    allows_global allow && row.kind_of_scope == "global"
    || in_scope "agent" allow.agent row
    || in_scope "shared-friend" allow.friend row
    || in_scope "shared-group" allow.group row

-- ORDER BY: the rows of a statement in order, by a test that the first comes after the second; ties
-- keep the order of the table.
unfoldable pub place : (Row → Row → Bool) → Row → List Row → List Row
place after x [] = x ∷ []
place after x (y ∷ ys) = let rest = place after x ys in if after x y then y ∷ rest else x ∷ y ∷ ys

unfoldable pub order_by : (Row → Row → Bool) → List Row → List Row
unfolding place
order_by after [] = []
order_by after (x ∷ xs) = place after x (order_by after xs)

abbrev less : ℤ → ℤ → Bool
less (pos m) (pos n) = ltb m n
less (pos m) (negsuc n) = false
less (negsuc m) (pos n) = true
less (negsuc m) (negsuc n) = ltb n m

-- `weight DESC, created_at DESC`
abbrev pub lighter : Row → Row → Bool
lighter a b =
    less a.weight b.weight || not (less b.weight a.weight) && ltb a.created_at b.created_at

-- `created_at DESC`
abbrev pub older : Row → Row → Bool
older a b = ltb a.created_at b.created_at

unfoldable pub touch_row : List ℕ → ℕ → Row → Row
touch_row ids now row =
    if any (eqb row.id) ids
    then record row { last_hit_at = some now; hit_count = row.hit_count + 1 }
    else row

-- `touchHit`, over the ids of rows of the table, each once
unfoldable pub touch_hit : List ℕ → ℕ → MemoryStore → MemoryStore
unfolding touch_row
touch_hit ids now s = record s { memories = map (touch_row ids now) s.memories }

unfoldable pub list : MemoryStore → AllowScopes → List MemoryRecord
unfolding scope_clause order_by
list s allow =
    if allows_none allow
    then []
    else map row_to_record (order_by older (filter (scope_clause allow) s.memories))

unfoldable pub count : MemoryStore → AllowScopes → ℕ
unfolding list
count s allow = length (list s allow)

-- `matches query text` is MATCH, and `ranks` compares two rows by bm25 and, where that ties, by
-- the rest of the ORDER BY.
module _ (to_lower_case : String → String) (matches : String → String → Bool)
    (ranks : String → List (String × String) → Row → Row → Bool) where
  -- the join with the index
  abbrev is_hit : String → List (String × String) → Row → Bool
  is_hit query fts row = any (λ f. f.0 == row.uid && matches query f.1) fts

  abbrev pub found_rows : MemoryStore → AllowScopes → String → ℕ → List Row
  found_rows s allow query k =
      let words = segment to_lower_case (trim query) in
      if words == ""
      then take k (order_by lighter (filter (scope_clause allow) s.memories))
      else take k (
          order_by (ranks words s.fts)
            (filter (λ r. is_hit words s.fts r && scope_clause allow r) s.memories))

  unfoldable pub retrieve :
      AllowScopes → String → ℕ → ℕ → MemoryStore → MemoryStore × List MemoryRecord
  unfolding segment scope_clause order_by row_to_record touch_hit
  retrieve allow query k now s =
      if allows_none allow
      then (s, [])
      else (let rows = found_rows s allow query k in
          (touch_hit (map (λ (r : Row). r.id) rows) now s, map row_to_record rows))
