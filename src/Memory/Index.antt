-- ===== src/Memory/Index.antt =====
-- The two tables of MemoryStore over any calls: the full-text index keeps in step with the memories.
use soulnet.Prelude.{ℕ, eqb, ◌≤◌, String, true, false, not, Option, none, some, arith}
use soulnet.Prelude.{
  List, [], ◌∷◌, ◌++◌, ◌==◌, if◌then◌else◌, Bool-cases, inl, inr, filter, map, any, length, eq_iff,
}
use soulnet.Prelude.{◌≡◌, refl, ap}
use soulnet.Memory.{MemoryScope, segment}
use soulnet.Memory.Store.{Row, MemoryStore, has_uid, edited}
use soulnet.Memory.Recall.{touch_row}

-- the texts of the index under a uid
abbrev pub texts : String → List (String × String) → List String
texts u [] = []
texts u (f ∷ fts) = let rest = texts u fts in if f.0 == u then f.1 ∷ rest else rest

pub texts-append :
    (u : String) (xs ys : List (String × String)) → texts u (xs ++ ys) ≡ texts u xs ++ texts u ys
texts-append u [] ys = refl
texts-append u (x ∷ xs) ys = elim (Bool-cases (x.0 == u)) [
  | inl same ↦ rw same (ap (◌∷◌ x.1) (texts-append u xs ys))
  | inr other ↦ rw other (texts-append u xs ys)
]

pub texts-drop :
    (uid u : String) (xs : List (String × String))
    → texts u (filter (λ f. not (f.0 == uid)) xs) ≡ (if uid == u then [] else texts u xs)
texts-drop uid u [] = ground arith
texts-drop uid u (x ∷ xs) =
    ground (arith, texts-drop uid u xs, eq_iff x.0 uid, eq_iff x.0 u, eq_iff uid u)

-- the store behind an operation that may throw
abbrev pub kept_by {ℓ} : {A : Type ℓ} → Option (MemoryStore × A) → MemoryStore → MemoryStore
kept_by none s = s
kept_by (some (s', _)) s = s'

module _ (to_lower_case : String → String) where
  -- what the index should hold under a uid, by the memories
  abbrev pub words_of : String → List Row → List String
  words_of u [] = []
  words_of u (r ∷ rows) =
      let rest = words_of u rows in
      if r.uid == u then segment to_lower_case r.content ∷ rest else rest

  pub words_of-append :
      (u : String) (xs ys : List Row) → words_of u (xs ++ ys) ≡ words_of u xs ++ words_of u ys
  words_of-append u [] ys = refl
  words_of-append u (x ∷ xs) ys = elim (Bool-cases (x.uid == u)) [
    | inl same ↦ rw same (ap (◌∷◌ (segment to_lower_case x.content)) (words_of-append u xs ys))
    | inr other ↦ rw other (words_of-append u xs ys)
  ]

  pub words_of-drop :
      (uid u : String) (xs : List Row)
      → words_of u (filter (λ r. not (has_uid uid r)) xs) ≡ (if uid == u then [] else words_of u xs)
  unfolding has_uid
  words_of-drop uid u [] = ground arith
  words_of-drop uid u (x ∷ xs) =
      ground (arith, words_of-drop uid u xs, eq_iff x.uid uid, eq_iff x.uid u, eq_iff uid u)

  -- Under the uid there is one memory at most, and the index holds its words and no more.
  pub record IsIndexed (u : String) (s : MemoryStore) : Type 0 where
    pub in_step : texts u s.fts ≡ words_of u s.memories
    pub at_most_one : length (words_of u s.memories) ≤ 1

  pub words_of-missing :
      (uid : String) (xs : List Row) → any (has_uid uid) xs ≡ false → words_of uid xs ≡ []
  unfolding has_uid
  words_of-missing uid [] h = refl
  words_of-missing uid (x ∷ xs) h = elim (Bool-cases (x.uid == uid)) [
    | inl same ↦ absurd (ground (arith, h, same))
    | inr other ↦ rw other (words_of-missing uid xs (ground (arith, h, other)))
  ]

  pub words_of-present :
      (uid : String) (xs : List Row) → any (has_uid uid) xs ≡ true → 1 ≤ length (words_of uid xs)
  unfolding has_uid
  words_of-present uid [] h = absurd (ground arith)
  words_of-present uid (x ∷ xs) h = elim (Bool-cases (x.uid == uid)) [
    | inl same ↦ rw same (omega arith)
    | inr other ↦ rw other (words_of-present uid xs (ground (arith, h, other)))
  ]

  -- an UPDATE of the rows of a uid
  abbrev pub edits : String → String → Option MemoryScope → Row → Row
  edits uid next scope r = if has_uid uid r then edited next scope r else r

  edited_words :
      (u next : String) (scope : Option MemoryScope) (x : Row) (rest : List Row)
      → words_of u (edited next scope x ∷ rest)
        ≡ (if x.uid == u then segment to_lower_case next ∷ words_of u rest else words_of u rest)
  edited_words u next none x rest = refl
  edited_words u next (some scope) x rest = refl

  pub words_of-edits :
      (uid u next : String) (scope : Option MemoryScope) (xs : List Row)
      → words_of u (map (edits uid next scope) xs) ≡ (
          if uid == u then map (λ _. segment to_lower_case next) (words_of u xs) else words_of u xs)
  unfolding has_uid
  words_of-edits uid u next scope [] = ground arith
  words_of-edits uid u next scope (x ∷ xs) = elim (Bool-cases (x.uid == uid)) [
    | inl same ↦
        let e = (eq_iff x.uid uid).0 same in
        rw
          (
            same,
            edited_words u next scope x (map (edits uid next scope) xs),
            words_of-edits uid u next scope xs,
            ← e,
          )
          (elim (Bool-cases (x.uid == u)) [ inl t ↦ rw t | inr t ↦ rw t ])
    | inr other ↦ elim (Bool-cases (x.uid == u)) [
      | inl t ↦
          let apart : uid == u ≡ false =
            ground (arith, other, t, eq_iff x.uid uid, eq_iff x.uid u, eq_iff uid u) in
          rw (other, t, words_of-edits uid u next scope xs, apart)
      | inr t ↦ rw (other, t) (words_of-edits uid u next scope xs)
    ]
  ]

  pub map-one :
      (w : String) (l : List String) → 1 ≤ length l → length l ≤ 1 → map (λ _. w) l ≡ w ∷ []
  map-one w [] h k = absurd (omega (arith, h))
  map-one w (x ∷ []) h k = refl
  map-one w (x ∷ y ∷ l) h k = absurd (omega (arith, k))

  pub touch_row-same :
      (ids : List ℕ) (now : ℕ) (x : Row)
      → ((touch_row ids now x).uid ≡ x.uid) × ((touch_row ids now x).content ≡ x.content)
  unfolding touch_row
  touch_row-same ids now x = elim (Bool-cases (any (eqb x.id) ids)) [
    | inl hit ↦ simp hit (refl, refl)
    | inr missed ↦ simp missed (refl, refl)
  ]

  pub words_of-touch :
      (u : String) (ids : List ℕ) (now : ℕ) (xs : List Row)
      → words_of u (map (touch_row ids now) xs) ≡ words_of u xs
  words_of-touch u ids now [] = refl
  words_of-touch u ids now (x ∷ xs) =
      let (uid, content) = touch_row-same ids now x in
      rw (uid, content, words_of-touch u ids now xs)
