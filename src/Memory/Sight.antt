-- ===== src/Memory/Sight.antt =====
-- What MemoryStore shows: only memories of the scopes that the caller is allowed.
use soulnet.Prelude.{ℕ, zero, suc, String, Bool, true, false, ◌&&◌, Option, none, some, arith}
use soulnet.Prelude.{
  List, [], ◌∷◌, ◌==◌, Bool-cases, inl, inr, get_or, filter, map, take, All, eq_iff, equals_iff,
}
use soulnet.Prelude.{◌≡◌, refl, ap}
use soulnet.Prelude.Text.{trim}
use soulnet.Memory.{
  MemoryScope, MemoryRecord, AllowScopes, segment, decode_scope, scope_kind, scope_key,
}
use soulnet.Memory.Store.{Row, MemoryStore, row_to_record}
use soulnet.Memory.Recall.{
  in_scope, scope_clause, place, order_by, list, retrieve, found_rows, allows_none, older, lighter,
}

-- The caller is allowed the scope, under the very name, friend or group.
abbrev pub Allowed : AllowScopes → MemoryScope → Type 0
Allowed allow MemoryScope.global = allow.global ≡ some true
Allowed allow (MemoryScope.agent name) = allow.agent ≡ some name
Allowed allow (MemoryScope.shared_friend fp) = allow.friend ≡ some fp
Allowed allow (MemoryScope.shared_group gid) = allow.group ≡ some gid

in_scope-true :
    (kind : String) (o : Option String) (row : Row)
    → in_scope kind o row ≡ true
    → (key : String) × (o ≡ some key) × (row.kind_of_scope ≡ kind) × (row.key_of_scope ≡ some key)
in_scope-true kind none row h = absurd (ground arith)
in_scope-true kind (some key) row h = (
  key,
  refl,
  ground (arith, eq_iff row.kind_of_scope kind),
  ground (arith, equals_iff row.key_of_scope key),
)

-- `decodeScope` of what is stored for a scope
pub decode_scope-scope_kind :
    (scope : MemoryScope) → decode_scope (scope_kind scope) (scope_key scope) ≡ scope
unfolding decode_scope
decode_scope-scope_kind MemoryScope.global = refl
decode_scope-scope_kind (MemoryScope.agent name) = refl
decode_scope-scope_kind (MemoryScope.shared_friend fp) = refl
decode_scope-scope_kind (MemoryScope.shared_group gid) = refl

stored_as :
    (allow : AllowScopes) (row : Row) (scope : MemoryScope)
    → row.kind_of_scope ≡ scope_kind scope
    → row.key_of_scope ≡ scope_key scope
    → Allowed allow scope
    → Allowed allow (row_to_record row).scope
unfolding row_to_record
stored_as allow row scope kind key allowed = rw (kind, key, decode_scope-scope_kind scope) allowed

stored_global :
    (allow : AllowScopes) (row : Row)
    → row.kind_of_scope ≡ "global"
    → allow.global ≡ some true
    → Allowed allow (row_to_record row).scope
unfolding row_to_record decode_scope
stored_global allow row kind allowed = rw kind allowed

scope_clause-Allowed :
    (allow : AllowScopes) (row : Row)
    → scope_clause allow row ≡ true
    → Allowed allow (row_to_record row).scope
unfolding scope_clause
scope_clause-Allowed allow row h =
    elim (Bool-cases (get_or allow.global false && row.kind_of_scope == "global")) [
      | inl g ↦
          stored_global allow row (ground (arith, g, eq_iff row.kind_of_scope "global"))
            (given allow.global (ground (arith, g)))
      | inr not_global ↦ elim (Bool-cases (in_scope "agent" allow.agent row)) [
        | inl a ↦
            let (name, e, kind, key) = in_scope-true "agent" allow.agent row a in
            stored_as allow row (MemoryScope.agent name) kind key e
        | inr not_agent ↦ elim (Bool-cases (in_scope "shared-friend" allow.friend row)) [
          | inl f ↦
              let (fp, e, kind, key) = in_scope-true "shared-friend" allow.friend row f in
              stored_as allow row (MemoryScope.shared_friend fp) kind key e
          | inr not_friend ↦
              let group : in_scope "shared-group" allow.group row ≡ true =
                ground (arith, h, not_global, not_agent, not_friend) in
              let (gid, e, kind, key) = in_scope-true "shared-group" allow.group row group in
              stored_as allow row (MemoryScope.shared_group gid) kind key e
        ]
      ]
    ]
  where
    given : (o : Option Bool) → get_or o false ≡ true → o ≡ some true
    given none e = absurd (ground arith)
    given (some b) e = ap some e

and-true_right : (a b : Bool) → (a && b) ≡ true → b ≡ true
and-true_right a b h = ground arith

module _ (P : Row → Type 0) where
  All-place :
      (after : Row → Row → Bool) (x : Row) (xs : List Row)
      → P x
      → All P xs
      → All P (place after x xs)
  unfolding place
  All-place after x [] p h = (p, tt)
  All-place after x (y ∷ ys) p h = elim (Bool-cases (after x y)) [
    | inl later ↦ rw later (h.0, All-place after x ys p h.1)
    | inr sooner ↦ rw sooner (p, h)
  ]

  All-order_by : (after : Row → Row → Bool) (xs : List Row) → All P xs → All P (order_by after xs)
  unfolding order_by
  All-order_by after [] h = tt
  All-order_by after (x ∷ xs) h =
      All-place after x (order_by after xs) h.0 (All-order_by after xs h.1)

  All-take : (k : ℕ) (xs : List Row) → All P xs → All P (take k xs)
  All-take zero xs h = tt
  All-take (suc k) [] h = tt
  All-take (suc k) (x ∷ xs) h = (h.0, All-take k xs h.1)

All-kept :
    (p : Row → Bool) (P : Row → Type 0) (rows : List Row)
    → ((r : Row) → p r ≡ true → P r)
    → All P (filter p rows)
All-kept p P [] h = tt
All-kept p P (row ∷ rows) h = elim (Bool-cases (p row)) [
  | inl shown ↦ rw shown (h row shown, All-kept p P rows h)
  | inr hidden ↦ rw hidden (All-kept p P rows h)
]

All-row_to_record :
    (P : MemoryRecord → Type 0) (rows : List Row)
    → All (λ r. P (row_to_record r)) rows
    → All P (map row_to_record rows)
All-row_to_record P [] h = tt
All-row_to_record P (r ∷ rows) h = (h.0, All-row_to_record P rows h.1)

-- The scope of what a row shows is allowed.
abbrev Shown : AllowScopes → Row → Type 0
Shown allow row = Allowed allow (row_to_record row).scope

list-Allowed :
    (s : MemoryStore) (allow : AllowScopes)
    → All (λ (r : MemoryRecord). Allowed allow r.scope) (list s allow)
unfolding list
list-Allowed s allow = elim (Bool-cases (allows_none allow)) [
  | inl hidden ↦ rw hidden tt
  | inr shown ↦
      let rows =
        All-kept (scope_clause allow) (Shown allow) s.memories (scope_clause-Allowed allow) in
      rw shown (All-row_to_record _ _ (All-order_by _ older _ rows))
]

module _ (to_lower_case : String → String) (matches : String → String → Bool)
    (ranks : String → List (String × String) → Row → Row → Bool) where
  found_rows-Shown :
      (s : MemoryStore) (allow : AllowScopes) (query : String) (k : ℕ)
      → All (Shown allow) (found_rows to_lower_case matches ranks s allow query k)
  found_rows-Shown s allow query k =
      let words = segment to_lower_case (trim query) in
      elim (Bool-cases (words == "")) [
        | inl blank ↦ rw blank (
            All-take _ k _ (
              All-order_by _ lighter _ (
                All-kept (scope_clause allow) (Shown allow) s.memories
                  (scope_clause-Allowed allow))))
        | inr text ↦ rw text (
            All-take _ k _ (
              All-order_by _ (ranks words s.fts) _ (
                All-kept _ (Shown allow) s.memories
                  (λ r h. scope_clause-Allowed allow r (and-true_right _ _ h)))))
      ]

  retrieve-Allowed :
      (allow : AllowScopes) (query : String) (k now : ℕ) (s : MemoryStore)
      → All
          (λ (r : MemoryRecord). Allowed allow r.scope)
          (retrieve to_lower_case matches ranks allow query k now s).1
  unfolding retrieve
  retrieve-Allowed allow query k now s = elim (Bool-cases (allows_none allow)) [
    | inl hidden ↦ rw hidden tt
    | inr shown ↦ simp shown (All-row_to_record _ _ (found_rows-Shown s allow query k))
  ]

  -- What is listed and what is recalled, for any query, has a scope that the caller is allowed: the
  -- global one only where the flag is set, and one of an agent, a friend or a group only where that
  -- very one is named. However the index matches and ranks, nothing else comes out.
  pub retrieve-list-Allowed :
      (allow : AllowScopes) (query : String) (k now : ℕ) (s : MemoryStore)
      → All
          (λ (r : MemoryRecord). Allowed allow r.scope)
          (retrieve to_lower_case matches ranks allow query k now s).1
        × All (λ (r : MemoryRecord). Allowed allow r.scope) (list s allow)
  retrieve-list-Allowed allow query k now s =
      (retrieve-Allowed allow query k now s, list-Allowed s allow)
