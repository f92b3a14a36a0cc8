-- ===== src/Page/Tests.antt =====
-- The theorems about client/page-state.ts at concrete inputs, with an id order that never swaps.
use soulnet.Prelude.{◌≡◌, refl, String, Bool, true, false, some, none, ◌&&◌}
use soulnet.Prelude.{[], ◌∷◌, count, equals}
use soulnet.Inbox.Frames.{ApiEntry}
use soulnet.Page.Entry.{ThreadEntry, ThreadState, empty_thread, entry_from_api, optimistic}
use soulnet.Page.Thread.{
  sort_thread, reconcile_send, merge_entries, merge_all, merge_one, index_from,
}
use soulnet.Page.Thread.Order.{Sorted, sort_thread-Sorted}
use soulnet.Page.Thread.Send.{stands_for, reconcile_send-Once}
use soulnet.Page.Selection.{
  Rows, resolve_selection, group_key, agent_key, gid_of, agent_of, strip_prefix,
}
use soulnet.Page.Selection.Resolve.{Shows, resolve_selection-Shows, gid_of-group_key}

abbrev locale_after : String → String → Bool
locale_after s t = false

abbrev archived : ApiEntry
archived = record {
  seq = 4;
  outgoing = true;
  id = "msg-9";
  body = "hi";
  ts = 70;
  from = none;
  type = none;
  auto = none;
  by = none;
  agent = none;
  status = some "sent";
  artifact_name = none;
}

abbrev first : ThreadEntry
first = entry_from_api (record archived { seq = 3; id = "msg-8"; outgoing = false })

-- The event with the entry came before the answer.
abbrev raced : ThreadState
raced = record empty_thread {
  entries = optimistic "c1" "hi" 69 ∷ entry_from_api archived ∷ first ∷ [];
}

sort_thread-Sorted_example :
    Sorted (sort_thread locale_after raced.entries)
    × (count (λ e. e.outgoing) (sort_thread locale_after raced.entries)
        ≡ count (λ e. e.outgoing) raced.entries)
sort_thread-Sorted_example = sort_thread-Sorted locale_after raced.entries (λ e. e.outgoing)

reconcile_send-Once_example :
    (count (stands_for archived) (reconcile_send locale_after raced "c1" archived).entries ≡ 1)
    × (count
          (λ e. stands_for archived e && equals e.client_id "c1")
          (reconcile_send locale_after raced "c1" archived).entries
        ≡ 1)
reconcile_send-Once_example = reconcile_send-Once locale_after raced "c1" archived refl

-- An archive page that holds the entries again adds none.
merged_once : count (λ e. e.outgoing) (merge_entries locale_after raced.entries (first ∷ [])) ≡ 2
unfolding merge_entries sort_thread merge_all merge_one index_from
merged_once = refl

abbrev rows : Rows
rows = record { friends = "ab12" ∷ []; groups = "g1" ∷ []; agents = "DevBot" ∷ [] }

resolve_selection-Shows_example :
    Shows rows (resolve_selection rows (some "g:g1"))
    × (resolve_selection rows (some (resolve_selection rows (some "g:g1")))
        ≡ resolve_selection rows (some "g:g1"))
resolve_selection-Shows_example = resolve_selection-Shows rows (some "g:g1")

gone : resolve_selection rows (some "g:left") ≡ "alter"
unfolding resolve_selection gid_of strip_prefix
gone = refl

gid_of-group_key_example :
    (gid_of (some (group_key "g1")) ≡ some "g1")
    × (agent_of (some (group_key "g1")) ≡ none)
    × (agent_of (some (agent_key "g1")) ≡ some "g1")
    × (gid_of (some (agent_key "g1")) ≡ none)
gid_of-group_key_example = gid_of-group_key "g1"
