-- ===== src/Drafts/Tests.antt =====
-- The theorems about drafts.ts at concrete inputs.
use soulnet.Prelude.{◌≡◌, refl, arith, true, some, none, List, [], ◌∷◌}
use soulnet.Prelude.{eq_iff}
use soulnet.Json.{Json, str, obj, arr, Fields, Items}
use soulnet.Drafts.{PendingDraft, DraftStore, NewDraft, load, get, stored_as, add, remove}
use soulnet.Drafts.Store.{remove-add}
use soulnet.Drafts.Reload.{IsWhole, Change, adds, removes, removes_all, run, load-run}

abbrev to_ann : PendingDraft
to_ann = record {
  id = "draft-1";
  fp = "ann";
  gid = none;
  name = "Ann";
  body = "hello";
  created_at = "2026-01-01T00:00:00.000Z";
  reason = "draft-tier";
  trigger = none;
  session_id = none;
  agent = none;
}

abbrev store : DraftStore
store = record {
  drafts = to_ann ∷ record to_ann { id = "draft-2"; fp = "bob" } ∷ [];
  loaded = true;
  file = none;
}

abbrev draft : NewDraft
draft = record {
  id = none;
  fp = "ann";
  gid = none;
  name = "Ann";
  body = "again";
  created_at = none;
  reason = "rate-limited";
  trigger = none;
  session_id = none;
  agent = none;
}

remove-add_example :
    (get (add true store draft "x" "now").0 (stored_as draft "x" "now").id
      ≡ some (stored_as draft "x" "now"))
    × ((remove true (add true store draft "x" "now").0 (stored_as draft "x" "now").id).1
        ≡ some (stored_as draft "x" "now"))
    × ((remove true (add true store draft "x" "now").0 (stored_as draft "x" "now").id).0.drafts
        ≡ store.drafts)
unfolding get stored_as
remove-add_example = remove-add true store draft "x" "now" refl

-- A file with one draft and one entry that is none.
abbrev on_disk : Json
on_disk = obj (
    Fields.field "drafts"
      (arr (
        Items.cons
          (obj (Fields.field "id" (str "draft-0") (Fields.field "fp" (str "eve") Fields.end)))
          (Items.cons (str "junk") Items.nil)))
      Fields.end)

abbrev changes : List Change
changes = adds draft "x" "now" ∷ removes "draft-0" ∷ removes_all "bob" ∷ []

draft-IsWhole : IsWhole (stored_as draft "x" "now")
unfolding stored_as
draft-IsWhole = record {
  id = ground (arith, eq_iff "draft-x" "");
  fp = ground (arith, eq_iff "ann" "");
  gid = tt;
  name = ground (arith, eq_iff "Ann" "");
  created_at = ground (arith, eq_iff "now" "");
  reason = ground (arith, eq_iff "rate-limited" "");
  trigger = refl;
  session_id = tt;
  agent = tt;
}

load-run_example :
    (load (run (load (record store { file = some on_disk })) changes)).drafts
    ≡ (run (load (record store { file = some on_disk })) changes).drafts
load-run_example = load-run (record store { file = some on_disk }) changes (draft-IsWhole, tt)
