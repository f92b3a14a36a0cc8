-- ===== src/Drafts/Store.antt =====
-- What can be read from the store of drafts.ts after each operation.
use soulnet.Prelude.{String, Bool, true, false, not, none, some, arith, eq_iff}
use soulnet.Prelude.{List, [], ◌∷◌, ◌++◌, ◌==◌, ◌≡◌, refl, ◌∙◌, if◌then◌else◌}
use soulnet.Prelude.{filter, find, count-not, eq_refl}
use soulnet.Drafts.{
  PendingDraft, DraftStore, NewDraft, flush, list, get, count, stored_as, add, remove, remove_all,
}

drafts-flush : (written : Bool) (s : DraftStore) → (flush written s).drafts ≡ s.drafts
unfolding flush
drafts-flush true s = refl
drafts-flush false s = refl

find-snoc :
    (j : String) (ds : List PendingDraft) (d : PendingDraft)
    → find (λ e. e.id == j) (ds ++ d ∷ []) ≡ (elim (find (λ e. e.id == j) ds) [
      | some e ↦ some e
      | none ↦ if d.id == j then some d else none
    ])
find-snoc j [] d = refl
find-snoc j (e ∷ ds) d = ground (arith, find-snoc j ds d)

-- The first draft with the id, after the drafts of another id are dropped.
find-drop :
    (id j : String) (ds : List PendingDraft)
    → find (λ d. d.id == j) (filter (λ d. not (d.id == id)) ds)
      ≡ (if id == j then none else find (λ d. d.id == j) ds)
find-drop id j [] = ground arith
find-drop id j (d ∷ ds) =
    ground (arith, eq_iff d.id id, eq_iff d.id j, eq_iff id j, find-drop id j ds)

drop_absent :
    (id : String) (ds : List PendingDraft)
    → find (λ d. d.id == id) ds ≡ none
    → filter (λ d. not (d.id == id)) ds ≡ ds
drop_absent id [] h = refl
drop_absent id (d ∷ ds) h = ground (arith, drop_absent id ds)

drop-snoc :
    (ds : List PendingDraft) (d : PendingDraft)
    → filter (λ e. not (e.id == d.id)) (ds ++ d ∷ []) ≡ filter (λ e. not (e.id == d.id)) ds
drop-snoc [] d = ground (arith, eq_refl d.id)
drop-snoc (e ∷ ds) d = ground (arith, drop-snoc ds d)

module _ (written : Bool) (s : DraftStore) where
  drafts-remove :
      (id : String) → (remove written s id).0.drafts ≡ filter (λ d. not (d.id == id)) s.drafts
  unfolding remove get
  drafts-remove id = ground (
    arith,
    drop_absent id s.drafts,
    drafts-flush written (record s { drafts = filter (λ d. not (d.id == id)) s.drafts }),
  )

  found-remove : (id : String) → (remove written s id).1 ≡ get s id
  unfolding remove get
  found-remove id = ground arith

  drafts-add :
      (d : NewDraft) (uuid now : String)
      → (add written s d uuid now).0.drafts ≡ s.drafts ++ stored_as d uuid now ∷ []
  unfolding add
  drafts-add d uuid now = drafts-flush written _

  -- `remove` answers the draft with the id, and afterwards no draft has it; every other id reads as
  -- before.
  pub get-remove :
      (id j : String)
      → ((remove written s id).1 ≡ get s id)
        × (get (remove written s id).0 j ≡ (if id == j then none else get s j))
  unfolding get
  get-remove id j = (found-remove id, rw (drafts-remove id) (find-drop id j s.drafts))

-- A draft that was added can be read under its id, if the id was new, and removing it again
-- answers it and leaves the drafts as they were.
pub remove-add :
    (written : Bool) (s : DraftStore) (d : NewDraft) (uuid now : String)
    → get s (stored_as d uuid now).id ≡ none
    → (get (add written s d uuid now).0 (stored_as d uuid now).id ≡ some (stored_as d uuid now))
      × ((remove written (add written s d uuid now).0 (stored_as d uuid now).id).1
          ≡ some (stored_as d uuid now))
      × ((remove written (add written s d uuid now).0 (stored_as d uuid now).id).0.drafts
          ≡ s.drafts)
unfolding get
remove-add written s d uuid now new =
    let stored = stored_as d uuid now in
    let after = (add written s d uuid now).0 in
    let found : get after stored.id ≡ some stored = rw (
      drafts-add written s d uuid now,
      find-snoc stored.id s.drafts stored,
      new,
      eq_refl stored.id,
    ) in
    (
      found,
      found-remove written after stored.id ∙ found,
      rw (drafts-remove written after stored.id, drafts-add written s d uuid now)
          (drop-snoc s.drafts stored ∙ drop_absent stored.id s.drafts new),
    )

filter_drop-ne :
    (fp q : String) (ds : List PendingDraft)
    → filter (λ d. d.fp == q) (filter (λ d. not (d.fp == fp)) ds)
      ≡ (if fp == q then [] else filter (λ d. d.fp == q) ds)
filter_drop-ne fp q [] = ground arith
filter_drop-ne fp q (d ∷ ds) =
    ground (arith, eq_iff d.fp fp, eq_iff d.fp q, eq_iff fp q, filter_drop-ne fp q ds)

-- `removeAll` answers how many drafts the friend had, after it none is left, and the drafts of every
-- other friend are the same in the same order.
pub list-remove_all :
    (written : Bool) (s : DraftStore) (fp q : String)
    → ((remove_all written s fp).1 ≡ count s (some fp))
      × (list (remove_all written s fp).0 (some q) ≡ (if fp == q then [] else list s (some q)))
unfolding remove_all count list
list-remove_all written s fp q =
    let p : PendingDraft → Bool = λ d. d.fp == fp in
    let s' = record s { drafts = filter (λ d. not (d.fp == fp)) s.drafts } in
    (
      omega (arith, count-not p s.drafts),
      ground (arith, drafts-flush written s', filter_drop-ne fp q s.drafts),
    )
