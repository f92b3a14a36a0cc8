-- ===== src/Memory/Tests.antt =====
-- The theorems about MemoryStore at concrete calls: two memories, one edited and moved to a group,
-- one removed, and what an agent may then see.
use soulnet.Prelude.{String, Bool, true, none, some, List, [], ◌∷◌, ◌==◌, ◌≡◌, refl, All}
use soulnet.Prelude.Text.{trim, trim_start, trim_end, join}
use soulnet.Memory.{NewMemory, MemoryRecord, MemoryKind, MemoryScope, AllowScopes, segment}
use soulnet.Memory.Store.{
  Row, MemoryStore, new_store, add, adding, execute, execute_all, has_uid, row_to_record, row_of,
}
use soulnet.Memory.Recall.{retrieve, list}
use soulnet.Memory.Sight.{Allowed, retrieve-list-Allowed}
use soulnet.Memory.Index.{IsIndexed}
use soulnet.Memory.Runs.{
  Happening, whole, cut_after, call_add, call_remove, call_update, call_retrieve, run, step,
  run-IsIndexed,
}
use soulnet.Memory.Add.{add_twice}

abbrev likes_tea : NewMemory
likes_tea = record {
  kind = MemoryKind.preference;
  content = " likes tea ";
  scope = MemoryScope.shared_friend "ann";
  source_ch = "chat";
  source_ref = none;
  weight = none;
  origin = none;
}

abbrev of_ann : AllowScopes
of_ann = record { global = some true; agent = none; friend = some "ann"; group = none }

abbrev same_text : String → String
same_text s = s

abbrev equal_words : String → String → Bool
equal_words query text = query == text

abbrev no_rank : String → List (String × String) → Row → Row → Bool
no_rank _ _ _ _ = true

abbrev calls : List Happening
calls =
    whole (call_add likes_tea "u1" 10)
    ∷ cut_after 1 (call_add (record likes_tea { scope = MemoryScope.global }) "u2" 20)
    ∷ whole (call_update "u1" "likes green tea" (some (MemoryScope.shared_group "g1")))
    ∷ cut_after 0 (call_remove "u1")
    ∷ whole (call_retrieve of_ann "tea" 8 25)
    ∷ whole (call_remove "u2")
    ∷ []

run-IsIndexed_example : IsIndexed same_text "u1" (run same_text equal_words no_rank new_store calls)
run-IsIndexed_example =
    run-IsIndexed same_text equal_words no_rank "u1" calls
      (refl, (refl, (refl, (refl, (refl, (refl, tt))))))

-- A memory whose second INSERT throws is stored without its words.
half_added :
    run same_text equal_words no_rank new_store (cut_after 1 (call_add likes_tea "u1" 10) ∷ [])
    ≡ record { memories = row_of 1 "u1" 10 "likes tea" likes_tea ∷ []; fts = []; next_id = 2 }
unfolding run step adding execute_all trim trim_start trim_end has_uid execute
half_added = refl

retrieve-list-Allowed_example :
    All
      (λ (r : MemoryRecord). Allowed of_ann r.scope)
      (retrieve same_text equal_words no_rank of_ann "tea" 8 30
        (run same_text equal_words no_rank new_store calls)).1
    × All
        (λ (r : MemoryRecord). Allowed of_ann r.scope)
        (list (run same_text equal_words no_rank new_store calls) of_ann)
retrieve-list-Allowed_example =
    retrieve-list-Allowed same_text equal_words no_rank of_ann "tea" 8 30
      (run same_text equal_words no_rank new_store calls)

abbrev tea_row : Row
tea_row = row_of 1 "u1" 10 "likes tea" likes_tea

abbrev tea_store : MemoryStore
tea_store = record { memories = tea_row ∷ []; fts = ("u1", "likes tea") ∷ []; next_id = 2 }

add_tea : add same_text likes_tea "u1" 10 new_store ≡ some (tea_store, row_to_record tea_row)
unfolding add execute_all trim trim_start trim_end segment has_uid join
add_tea = refl

add_twice_example :
    ((row_to_record tea_row).scope ≡ MemoryScope.shared_friend "ann")
    × ((row_to_record tea_row).content ≡ trim " likes tea ")
    × (add same_text likes_tea "u9" 99 tea_store ≡ some (tea_store, row_to_record tea_row))
add_twice_example =
    add_twice same_text likes_tea "u1" "u9" 10 99 new_store tea_store (row_to_record tea_row)
      add_tea
