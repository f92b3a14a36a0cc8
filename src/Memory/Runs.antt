-- ===== src/Memory/Runs.antt =====
-- The two tables of MemoryStore over any calls, those among them that throw between two statements:
-- no transaction holds the statements of a call together.
use soulnet.Prelude.{ℕ, eqb, String, Bool, true, false, not, ◌||◌, Option}
use soulnet.Prelude.{List, [], ◌∷◌, ◌==◌, if◌then◌else◌, Bool-cases, inl, inr}
use soulnet.Prelude.{All, map, take, ◌≡◌}
use soulnet.Memory.{MemoryScope, NewMemory, AllowScopes}
use soulnet.Memory.Store.{
  Row, MemoryStore, new_store, add, remove, update, execute_all, adding, removal, updating,
}
use soulnet.Memory.Recall.{retrieve, touch_hit, allows_none, found_rows}
use soulnet.Memory.Index.{kept_by, IsIndexed}
use soulnet.Memory.Cut.{adding-others, removal-others, updating-others, cut_short-IsIndexed}
use soulnet.Memory.Kept.{
  new_store-IsIndexed, add-IsIndexed, remove-IsIndexed, update-IsIndexed, retrieve-IsIndexed,
  touch_hit-IsIndexed,
}

-- A call of the store, with the uid and the time that it draws.
pub data Call : Type 0 where
  call_add : NewMemory → String → ℕ → Call
  call_remove : String → Call
  call_update : String → String → Option MemoryScope → Call
  call_retrieve : AllowScopes → String → ℕ → ℕ → Call

-- A call whose writing statements all go through, or that throws behind the first `n` of them.
pub data Happening : Type 0 where
  whole : Call → Happening
  cut_after : ℕ → Call → Happening

-- The uid whose rows a call writes.
abbrev concerns : String → Call → Bool
concerns u (call_add input uid now) = uid == u
concerns u (call_remove uid) = uid == u
concerns u (call_update uid content scope) = uid == u
concerns u (call_retrieve allow query k now) = false

-- No call for the uid is cut between its statements.
abbrev pub spares : String → Happening → Bool
spares u (whole c) = true
spares u (cut_after n c) = eqb n 0 || not (concerns u c)

module _ (to_lower_case : String → String) (matches : String → String → Bool)
    (ranks : String → List (String × String) → Row → Row → Bool) where
  unfoldable pub step : Happening → MemoryStore → MemoryStore
  unfolding execute_all
  step (whole (call_add input uid now)) s = kept_by (add to_lower_case input uid now s) s
  step (whole (call_remove uid)) s = (remove s uid).0
  step (whole (call_update uid content scope)) s =
      kept_by (update to_lower_case s uid content scope) s
  step (whole (call_retrieve allow query k now)) s =
      (retrieve to_lower_case matches ranks allow query k now s).0
  step (cut_after n (call_add input uid now)) s =
      execute_all (take n (adding to_lower_case input uid now s)) s
  step (cut_after n (call_remove uid)) s = execute_all (take n (removal s uid)) s
  step (cut_after n (call_update uid content scope)) s =
      execute_all (take n (updating to_lower_case s uid content scope)) s
  step (cut_after n (call_retrieve allow query k now)) s =
      if allows_none allow
      then s
      else touch_hit
          (take n
            (map (λ (r : Row). r.id) (found_rows to_lower_case matches ranks s allow query k)))
          now s

  unfoldable pub run : MemoryStore → List Happening → MemoryStore
  unfolding step
  run s [] = s
  run s (h ∷ hs) = run (step h s) hs

module _ (to_lower_case : String → String) (matches : String → String → Bool)
    (ranks : String → List (String × String) → Row → Row → Bool) (u : String) where
  abbrev Kept : MemoryStore → Type 0
  Kept s = IsIndexed to_lower_case u s

  cut-IsIndexed :
      (n : ℕ) (c : Call) (s : MemoryStore)
      → spares u (cut_after n c) ≡ true
      → Kept s
      → Kept (step to_lower_case matches ranks (cut_after n c) s)
  unfolding step execute_all
  cut-IsIndexed n (call_add input uid now) s spared sound =
      cut_short-IsIndexed to_lower_case u n (uid == u) _ s spared
        (adding-others to_lower_case u input uid now s) sound
  cut-IsIndexed n (call_remove uid) s spared sound =
      cut_short-IsIndexed to_lower_case u n (uid == u) _ s spared
        (removal-others to_lower_case u s uid) sound
  cut-IsIndexed n (call_update uid content scope) s spared sound =
      cut_short-IsIndexed to_lower_case u n (uid == u) _ s spared
        (updating-others to_lower_case u s uid content scope) sound
  cut-IsIndexed n (call_retrieve allow query k now) s spared sound =
      elim (Bool-cases (allows_none allow)) [
        | inl hidden ↦ rw hidden sound
        | inr shown ↦ rw shown (touch_hit-IsIndexed to_lower_case u _ now s sound)
      ]

  step-IsIndexed :
      (h : Happening) (s : MemoryStore)
      → spares u h ≡ true
      → Kept s
      → Kept (step to_lower_case matches ranks h s)
  unfolding step
  step-IsIndexed (cut_after n c) s spared sound = cut-IsIndexed n c s spared sound
  step-IsIndexed (whole (call_add input uid now)) s spared sound =
      add-IsIndexed to_lower_case u input uid now s sound
  step-IsIndexed (whole (call_remove uid)) s spared sound =
      remove-IsIndexed to_lower_case u uid s sound
  step-IsIndexed (whole (call_update uid content scope)) s spared sound =
      update-IsIndexed to_lower_case u s uid content scope sound
  step-IsIndexed (whole (call_retrieve allow query k now)) s spared sound =
      retrieve-IsIndexed to_lower_case u matches ranks allow query k now s sound

  run_from-IsIndexed :
      (s : MemoryStore) (hs : List Happening)
      → All (λ h. spares u h ≡ true) hs
      → Kept s
      → Kept (run to_lower_case matches ranks s hs)
  unfolding run
  run_from-IsIndexed s [] spared sound = sound
  run_from-IsIndexed s (h ∷ hs) spared sound =
      run_from-IsIndexed (step to_lower_case matches ranks h s) hs spared.1
        (step-IsIndexed h s spared.0 sound)

  -- After any calls, whole or cut short by a statement that throws: if no call that adds, edits or
  -- removes the given uid was cut behind its first statement or a later one, at most one memory has
  -- that uid, and under it the full-text index holds the words of that memory's present text and
  -- nothing else, or nothing if there is no such memory.
  pub run-IsIndexed :
      (hs : List Happening)
      → All (λ h. spares u h ≡ true) hs
      → IsIndexed to_lower_case u (run to_lower_case matches ranks new_store hs)
  run-IsIndexed hs spared =
      run_from-IsIndexed new_store hs spared (new_store-IsIndexed to_lower_case u)
