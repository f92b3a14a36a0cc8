-- ===== src/Memory/Cut.antt =====
-- A call of MemoryStore that throws between two statements, beside the rows of another uid.
use soulnet.Prelude.{ℕ, zero, suc, eqb, String, Bool, true, false, not, ◌||◌, Option, arith}
use soulnet.Prelude.{List, [], ◌∷◌, ◌==◌, Bool-cases, Option-cases, inl, inr}
use soulnet.Prelude.{All, any, find, take, append-nil, ◌≡◌, refl}
use soulnet.Prelude.Text.{trim}
use soulnet.Memory.{MemoryScope, NewMemory}
use soulnet.Memory.Store.{
  MemoryStore, has_uid, has_content, Statement, insert_row, insert_words, delete_row, delete_words,
  update_row, execute, execute_all, adding, removal, updating,
}
use soulnet.Memory.Index.{
  texts-append, texts-drop, words_of-append, words_of-drop, words_of-edits, IsIndexed,
}

-- The uid that a statement writes.
abbrev uid_of : Statement → String
uid_of (insert_row row) = row.uid
uid_of (insert_words uid words) = uid
uid_of (delete_row uid) = uid
uid_of (delete_words uid) = uid
uid_of (update_row uid content scope) = uid

module _ (to_lower_case : String → String) (u : String) where
  -- A statement for another uid.
  execute-IsIndexed :
      (w : Statement) (s : MemoryStore)
      → uid_of w == u ≡ false
      → IsIndexed to_lower_case u s
      → IsIndexed to_lower_case u (execute w s)
  unfolding execute
  execute-IsIndexed (insert_row row) s other sound =
      let same = words_of-append to_lower_case u s.memories (row ∷ []) in
      record {
        in_step = rw (same, other, append-nil) sound.in_step;
        at_most_one = rw (same, other, append-nil) sound.at_most_one;
      }
  execute-IsIndexed (insert_words uid words) s other sound = record {
    in_step = rw (texts-append u s.fts ((uid, words) ∷ []), other, append-nil) sound.in_step;
    at_most_one = sound.at_most_one;
  }
  execute-IsIndexed (delete_row uid) s other sound =
      let same = words_of-drop to_lower_case uid u s.memories in
      record {
        in_step = rw (same, other) sound.in_step;
        at_most_one = rw (same, other) sound.at_most_one;
      }
  execute-IsIndexed (delete_words uid) s other sound = record {
    in_step = rw (texts-drop uid u s.fts, other) sound.in_step;
    at_most_one = sound.at_most_one;
  }
  execute-IsIndexed (update_row uid content scope) s other sound =
      let same = words_of-edits to_lower_case uid u content scope s.memories in
      record {
        in_step = rw (same, other) sound.in_step;
        at_most_one = rw (same, other) sound.at_most_one;
      }

  execute_all-IsIndexed :
      (n : ℕ) (ws : List Statement) (s : MemoryStore)
      → All (λ w. uid_of w == u ≡ false) ws
      → IsIndexed to_lower_case u s
      → IsIndexed to_lower_case u (execute_all (take n ws) s)
  unfolding execute_all
  execute_all-IsIndexed zero ws s others sound = sound
  execute_all-IsIndexed (suc n) [] s others sound = sound
  execute_all-IsIndexed (suc n) (w ∷ ws) s others sound =
      execute_all-IsIndexed n ws (execute w s) others.1 (execute-IsIndexed w s others.0 sound)

  pub adding-others :
      (input : NewMemory) (uid : String) (now : ℕ) (s : MemoryStore)
      → uid == u ≡ false
      → All (λ w. uid_of w == u ≡ false) (adding to_lower_case input uid now s)
  unfolding adding
  adding-others input uid now s other =
      let content = trim input.content in
      elim (Bool-cases (content == "")) [
        | inl blank ↦ simp (adding, blank) tt
        | inr full ↦ elim (Option-cases (find (has_content input.scope content) s.memories)) [
          | inr (existing, found) ↦ simp (adding, full, found) tt
          | inl new ↦ elim (Bool-cases (any (has_uid uid) s.memories)) [
            | inl taken ↦ simp (adding, full, new, taken) tt
            | inr free ↦ simp (adding, full, new, free) (other, (other, tt))
          ]
        ]
      ]

  pub removal-others :
      (s : MemoryStore) (uid : String)
      → uid == u ≡ false
      → All (λ w. uid_of w == u ≡ false) (removal s uid)
  unfolding removal
  removal-others s uid other = elim (Bool-cases (any (has_uid uid) s.memories)) [
    | inl there ↦ simp there (other, (other, tt))
    | inr missing ↦ simp missing tt
  ]

  pub updating-others :
      (s : MemoryStore) (uid content : String) (scope : Option MemoryScope)
      → uid == u ≡ false
      → All (λ w. uid_of w == u ≡ false) (updating to_lower_case s uid content scope)
  unfolding updating
  updating-others s uid content scope other = elim (Bool-cases (trim content == "")) [
    | inl blank ↦ simp blank tt
    | inr full ↦ elim (Bool-cases (any (has_uid uid) s.memories)) [
      | inl there ↦ simp (full, there) (other, (other, (other, tt)))
      | inr missing ↦ simp (full, missing) tt
    ]
  ]

  -- The first statement throws, or the call is for another uid.
  pub cut_short-IsIndexed :
      (n : ℕ) (for_uid : Bool) (ws : List Statement) (s : MemoryStore)
      → (eqb n 0 || not for_uid) ≡ true
      → (for_uid ≡ false → All (λ w. uid_of w == u ≡ false) ws)
      → IsIndexed to_lower_case u s
      → IsIndexed to_lower_case u (execute_all (take n ws) s)
  unfolding execute_all
  cut_short-IsIndexed n false ws s spared others sound =
      execute_all-IsIndexed n ws s (others refl) sound
  cut_short-IsIndexed zero true ws s spared others sound = sound
  cut_short-IsIndexed (suc n) true ws s spared others sound = absurd (ground (arith, spared))
