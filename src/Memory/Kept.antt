-- ===== src/Memory/Kept.antt =====
-- The two tables of MemoryStore: every operation whose statements all go through keeps the index in
-- step.
use soulnet.Prelude.{ℕ, ◌+◌, ◌≤◌, String, Bool, true, false, not, Option, arith}
use soulnet.Prelude.{
  List, [], ◌∷◌, ◌++◌, ◌==◌, if◌then◌else◌, Bool-cases, Option-cases, inl, inr, filter, map, any,
  find, length, eq_iff,
}
use soulnet.Prelude.{◌≡◌, refl, append-nil, ◌∙◌, subst}
use soulnet.Prelude.Text.{trim}
use soulnet.Memory.{MemoryScope, NewMemory, AllowScopes, segment}
use soulnet.Memory.Store.{
  Row, MemoryStore, new_store, row_of, has_uid, has_content, add, remove, update,
}
use soulnet.Memory.Recall.{retrieve, touch_hit, allows_none}
use soulnet.Memory.Index.{
  texts-append, texts-drop, kept_by, words_of, words_of-append, words_of-drop, words_of-missing,
  words_of-present, edits, words_of-edits, map-one, words_of-touch, IsIndexed,
}

module _ (to_lower_case : String → String) (u : String) where
  pub new_store-IsIndexed : IsIndexed to_lower_case u new_store
  new_store-IsIndexed = record { in_step = refl; at_most_one = omega arith }

  -- the tables with a new row at their ends
  abbrev grown : Row → MemoryStore → MemoryStore
  grown row s = record {
    memories = s.memories ++ row ∷ [];
    fts = s.fts ++ (row.uid, segment to_lower_case row.content) ∷ [];
    next_id = s.next_id + 1;
  }

  grown-IsIndexed :
      (row : Row) (s : MemoryStore)
      → any (has_uid row.uid) s.memories ≡ false
      → IsIndexed to_lower_case u s
      → IsIndexed to_lower_case u (grown row s)
  grown-IsIndexed row s missing sound = record {
    in_step = rw (
      texts-append u s.fts ((row.uid, segment to_lower_case row.content) ∷ []),
      words_of-append to_lower_case u s.memories (row ∷ []),
      sound.in_step,
    );
    at_most_one =
        rw (words_of-append to_lower_case u s.memories (row ∷ []))
          (elim (Bool-cases (row.uid == u)) [
            | inl same ↦
                let none_held : words_of to_lower_case u s.memories ≡ [] =
                  subst (λ v. words_of to_lower_case v s.memories ≡ []) ((eq_iff row.uid u).0 same)
                    (words_of-missing to_lower_case row.uid s.memories missing) in
                rw (same, none_held) (omega arith)
            | inr other ↦ rw (other, append-nil) sound.at_most_one
          ]);
  }

  pub add-IsIndexed :
      (input : NewMemory) (uid : String) (now : ℕ) (s : MemoryStore)
      → IsIndexed to_lower_case u s
      → IsIndexed to_lower_case u (kept_by (add to_lower_case input uid now s) s)
  unfolding add
  add-IsIndexed input uid now s sound =
      let content = trim input.content in
      elim (Bool-cases (content == "")) [
        | inl blank ↦ simp blank sound
        | inr full ↦ elim (Option-cases (find (has_content input.scope content) s.memories)) [
          | inr (existing, found) ↦ simp (add, full, found) sound
          | inl new ↦ elim (Bool-cases (any (has_uid uid) s.memories)) [
            | inl taken ↦ simp (add, full, new, taken) sound
            | inr free ↦
                simp (add, full, new, free)
                  (grown-IsIndexed (row_of s.next_id uid now content input) s free sound)
          ]
        ]
      ]

  pub remove-IsIndexed :
      (uid : String) (s : MemoryStore)
      → IsIndexed to_lower_case u s
      → IsIndexed to_lower_case u (remove s uid).0
  unfolding remove
  remove-IsIndexed uid s sound = elim (Bool-cases (any (has_uid uid) s.memories)) [
    | inl there ↦ simp there (record {
      in_step =
          rw (texts-drop uid u s.fts, words_of-drop to_lower_case uid u s.memories, sound.in_step);
      at_most_one =
          rw (words_of-drop to_lower_case uid u s.memories) (ground (arith, sound.at_most_one));
    })
    | inr missing ↦ simp missing sound
  ]

  -- the tables behind an edit of a row that is there
  abbrev rewritten : MemoryStore → String → String → Option MemoryScope → MemoryStore
  rewritten s uid next scope = record s {
    memories = map (edits to_lower_case uid next scope) s.memories;
    fts = filter (λ f. not (f.0 == uid)) s.fts ++ (uid, segment to_lower_case next) ∷ [];
  }

  words_of-rewritten :
      (s : MemoryStore) (uid next : String) (scope : Option MemoryScope)
      → any (has_uid uid) s.memories ≡ true
      → IsIndexed to_lower_case u s
      → words_of to_lower_case u (rewritten s uid next scope).memories ≡ (
          if uid == u then segment to_lower_case next ∷ [] else words_of to_lower_case u s.memories)
  words_of-rewritten s uid next scope there sound = elim (Bool-cases (uid == u)) [
    | inr other ↦ words_of-edits to_lower_case uid u next scope s.memories ∙ rw other
    | inl same ↦
        let held : 1 ≤ length (words_of to_lower_case u s.memories) =
          subst (λ v. 1 ≤ length (words_of to_lower_case v s.memories)) ((eq_iff uid u).0 same)
            (words_of-present to_lower_case uid s.memories there) in
        words_of-edits to_lower_case uid u next scope s.memories
        ∙ rw same (
            map-one to_lower_case (segment to_lower_case next) (words_of to_lower_case u s.memories)
              held sound.at_most_one)
  ]

  rewritten-IsIndexed :
      (s : MemoryStore) (uid next : String) (scope : Option MemoryScope)
      → any (has_uid uid) s.memories ≡ true
      → IsIndexed to_lower_case u s
      → IsIndexed to_lower_case u (rewritten s uid next scope)
  rewritten-IsIndexed s uid next scope there sound = record {
    in_step =
        rw
          (
            texts-append u (filter (λ f. not (f.0 == uid)) s.fts)
                ((uid, segment to_lower_case next) ∷ []),
            texts-drop uid u s.fts,
            words_of-rewritten s uid next scope there sound,
            sound.in_step,
          )
          (elim (Bool-cases (uid == u)) [
            | inl same ↦ rw same
            | inr other ↦ rw (other, append-nil)
          ]);
    at_most_one =
        rw (words_of-rewritten s uid next scope there sound) (ground (arith, sound.at_most_one));
  }

  pub update-IsIndexed :
      (s : MemoryStore) (uid content : String) (scope : Option MemoryScope)
      → IsIndexed to_lower_case u s
      → IsIndexed to_lower_case u (kept_by (update to_lower_case s uid content scope) s)
  unfolding update
  update-IsIndexed s uid content scope sound = elim (Bool-cases (trim content == "")) [
    | inl blank ↦ simp blank sound
    | inr full ↦ elim (Bool-cases (any (has_uid uid) s.memories)) [
      | inr missing ↦ simp (full, missing) sound
      | inl there ↦ simp (full, there) (rewritten-IsIndexed s uid (trim content) scope there sound)
    ]
  ]

  pub touch_hit-IsIndexed :
      (ids : List ℕ) (now : ℕ) (s : MemoryStore)
      → IsIndexed to_lower_case u s
      → IsIndexed to_lower_case u (touch_hit ids now s)
  unfolding touch_hit
  touch_hit-IsIndexed ids now s sound = record {
    in_step = rw (words_of-touch to_lower_case u ids now s.memories) sound.in_step;
    at_most_one = rw (words_of-touch to_lower_case u ids now s.memories) sound.at_most_one;
  }

module _ (to_lower_case : String → String) (u : String) (matches : String → String → Bool)
    (ranks : String → List (String × String) → Row → Row → Bool) where
  pub retrieve-IsIndexed :
      (allow : AllowScopes) (query : String) (k now : ℕ) (s : MemoryStore)
      → IsIndexed to_lower_case u s
      → IsIndexed to_lower_case u (retrieve to_lower_case matches ranks allow query k now s).0
  unfolding retrieve
  retrieve-IsIndexed allow query k now s sound = elim (Bool-cases (allows_none allow)) [
    | inl hidden ↦ simp hidden sound
    | inr shown ↦ simp shown (touch_hit-IsIndexed to_lower_case u _ now s sound)
  ]
