-- ===== src/Memory/Add.antt =====
-- `add` of MemoryStore: what it stores, and that it stores it once.
use soulnet.Prelude.{ℕ, ◌+◌, String, Bool, true, false, Option, none, some, arith}
use soulnet.Prelude.{
  List, [], ◌∷◌, ◌++◌, ◌==◌, if◌then◌else◌, Bool-cases, Option-cases, inl, inr, any, find, eq_iff,
  eq_refl, eq_of_some-eq-some,
}
use soulnet.Prelude.{◌≡◌, ◌≢◌, refl, ap, ◌∙◌, sym, subst}
use soulnet.Prelude.Text.{trim}
use soulnet.Memory.{MemoryScope, NewMemory, MemoryRecord, segment, scope_kind, scope_key}
use soulnet.Memory.Store.{
  Row, MemoryStore, row_to_record, row_of, has_uid, has_content, is_same, add,
}
use soulnet.Memory.Sight.{decode_scope-scope_kind}

is_same-true : (a b : Option String) → is_same a b ≡ true → a ≡ b
is_same-true none none h = refl
is_same-true none (some b) h = absurd (ground arith)
is_same-true (some a) none h = absurd (ground arith)
is_same-true (some a) (some b) h = ap some ((eq_iff a b).0 h)

is_same_refl : (a : Option String) → is_same a a ≡ true
is_same_refl none = refl
is_same_refl (some a) = eq_refl a

find_holds : (p : Row → Bool) (xs : List Row) (x : Row) → find p xs ≡ some x → p x ≡ true
find_holds p [] x h = absurd (ground arith)
find_holds p (y ∷ ys) x h = elim (Bool-cases (p y)) [
  | inl here ↦
      let e : some y ≡ some x = subst (λ b. (if b then some y else find p ys) ≡ some x) here h in
      subst (λ z. p z ≡ true) (eq_of_some-eq-some e) here
  | inr behind ↦
      find_holds p ys x (subst (λ b. (if b then some y else find p ys) ≡ some x) behind h)
]

find-last :
    (p : Row → Bool) (xs : List Row) (x : Row)
    → find p xs ≡ none
    → p x ≡ true
    → find p (xs ++ x ∷ []) ≡ some x
find-last p [] x h k = rw k
find-last p (y ∷ ys) x h k = elim (Bool-cases (p y)) [
  | inl here ↦ absurd (ground (arith, h, here))
  | inr behind ↦ rw behind (find-last p ys x (ground (arith, h, behind)) k)
]

-- A row with the scope and the content shows them.
has_content-true :
    (scope : MemoryScope) (content : String) (row : Row)
    → has_content scope content row ≡ true
    → ((row_to_record row).scope ≡ scope) × ((row_to_record row).content ≡ content)
unfolding row_to_record
has_content-true scope content row h =
    let kind : row.kind_of_scope ≡ scope_kind scope =
      ground (arith, h, eq_iff row.kind_of_scope (scope_kind scope)) in
    let same : is_same row.key_of_scope (scope_key scope) ≡ true = ground (arith, h) in
    (
      rw (kind, is_same-true row.key_of_scope (scope_key scope) same)
          (decode_scope-scope_kind scope),
      ground (arith, h, eq_iff row.content content),
    )

row_of-has_content :
    (id : ℕ) (uid : String) (now : ℕ) (content : String) (input : NewMemory)
    → has_content input.scope content (row_of id uid now content input) ≡ true
row_of-has_content id uid now content input =
    rw (eq_refl (scope_kind input.scope), is_same_refl (scope_key input.scope), eq_refl content)

-- What `add` found or made.
record Added (to_lower_case : String → String) (input : NewMemory) (s : MemoryStore)
    (r : MemoryRecord) : Type 0 where
  row : Row
  shown : r ≡ row_to_record row
  stored : find (has_content input.scope (trim input.content)) s.memories ≡ some row
  full : trim input.content == "" ≡ false

module _ (to_lower_case : String → String) (input : NewMemory) where
  same_answer :
      (o : Option (MemoryStore × MemoryRecord)) (t s' : MemoryStore) (row : Row) (r : MemoryRecord)
      → o ≡ some (s', r)
      → o ≡ some (t, row_to_record row)
      → find (has_content input.scope (trim input.content)) t.memories ≡ some row
      → trim input.content == "" ≡ false
      → Added to_lower_case input s' r
  same_answer o t s' row r h e stored full =
      subst (λ (x : MemoryStore × MemoryRecord). Added to_lower_case input x.0 x.1)
        (eq_of_some-eq-some (sym e ∙ h))
        (record { row = row; shown = refl; stored = stored; full = full })

  no_answer :
      (o : Option (MemoryStore × MemoryRecord)) (a : MemoryStore × MemoryRecord)
      → o ≡ some a
      → o ≢ none
  no_answer o a h e = absurd (ground (arith, sym e ∙ h))

  add-Added :
      (uid : String) (now : ℕ) (s s' : MemoryStore) (r : MemoryRecord)
      → add to_lower_case input uid now s ≡ some (s', r)
      → Added to_lower_case input s' r
  unfolding add
  add-Added uid now s s' r h =
      let content = trim input.content in
      let test = has_content input.scope content in
      elim (Bool-cases (content == "")) [
        | inl blank ↦ absurd (no_answer _ (s', r) h (simp (add, blank) refl))
        | inr full ↦ elim (Option-cases (find test s.memories)) [
          | inr (existing, found) ↦
              same_answer _ s s' existing r h (simp (add, full, found) refl) found full
          | inl new ↦ elim (Bool-cases (any (has_uid uid) s.memories)) [
            | inl taken ↦ absurd (no_answer _ (s', r) h (simp (add, full, new, taken) refl))
            | inr free ↦
                let row = row_of s.next_id uid now content input in
                let t : MemoryStore = record {
                  memories = s.memories ++ row ∷ [];
                  fts = s.fts ++ (uid, segment to_lower_case content) ∷ [];
                  next_id = s.next_id + 1;
                } in
                same_answer _ t s' row r h (simp (add, full, new, free) refl)
                  (find-last test s.memories row new
                    (row_of-has_content s.next_id uid now content input))
                  full
          ]
        ]
      ]

  -- When `add` answers a record, it holds the given text, trimmed, under the given scope, and it is
  -- found again: the same call at any later time, with any fresh uid, answers the same record and
  -- changes nothing.
  pub add_twice :
      (uid uid' : String) (now now' : ℕ) (s s' : MemoryStore) (r : MemoryRecord)
      → add to_lower_case input uid now s ≡ some (s', r)
      → (r.scope ≡ input.scope)
        × (r.content ≡ trim input.content)
        × (add to_lower_case input uid' now' s' ≡ some (s', r))
  unfolding add
  add_twice uid uid' now now' s s' r h =
      let a = add-Added uid now s s' r h in
      let content = trim input.content in
      let holds = find_holds (has_content input.scope content) s'.memories a.row a.stored in
      let (scope, text) = has_content-true input.scope content a.row holds in
      (
        ap (λ (x : MemoryRecord). x.scope) a.shown ∙ scope,
        ap (λ (x : MemoryRecord). x.content) a.shown ∙ text,
        simp (add, a.full, a.stored) (ap (λ x. some (s', x)) (sym a.shown)),
      )
