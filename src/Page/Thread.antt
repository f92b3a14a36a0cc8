-- ===== src/Page/Thread.antt =====
-- dsh/packages/dsh/src/client/page-state.ts: the messages of one thread, archived ones and those
-- that are on their way out.
pub mod Order
pub mod Send
use soulnet.Prelude.{ℕ, zero, suc, ◌+◌, String, Bool, true, false, not, ◌&&◌, ◌||◌}
use soulnet.Prelude.{Option, none, some, List, [], ◌∷◌, ◌++◌, ◌==◌, filter, get_or, length, map}
use soulnet.Prelude.{if◌then◌else◌, ltb, eqb, equals, get_elem?, is_some}
use soulnet.FriendSettings.{over}
use soulnet.Inbox.Frames.{ApiEntry}
use soulnet.Page.Entry.{
  ThreadEntry, ThreadState, entry_from_api, absorbed, InboundMessage, inbound_entry, optimistic,
}

-- The two maps of `mergeEntries` with the list `next` that they index.
pub record Merge : Type 0 where
  pub next : List ThreadEntry
  pub by_seq : ℕ → Option ℕ
  pub by_id : String → Option ℕ

abbrev set_seq : ℕ → ℕ → (ℕ → Option ℕ) → ℕ → Option ℕ
set_seq seq at by_seq k = if ltb 0 seq then (if eqb k seq then some at else by_seq k) else by_seq k

abbrev set_id : String → Option ℕ → (String → Option ℕ) → String → Option ℕ
set_id id at by_id k = if k == id then at else by_id k

abbrev replace_at : ℕ → ThreadEntry → List ThreadEntry → List ThreadEntry
replace_at i e [] = []
replace_at zero e (x ∷ xs) = e ∷ xs
replace_at (suc i) e (x ∷ xs) = x ∷ replace_at i e xs

unfoldable pub index_from : ℕ → List ThreadEntry → Merge → Merge
index_from i [] m = m
index_from i (e ∷ es) m =
    index_from (i + 1) es
      (record m { by_seq = set_seq e.seq i m.by_seq; by_id = set_id e.id (some i) m.by_id })

-- One round of the loop over the incoming entries.
unfoldable pub merge_one : Merge → ThreadEntry → Merge
merge_one m entry =
    let index = over (if ltb 0 entry.seq then m.by_seq entry.seq else none) (m.by_id entry.id) in
    elim index [
      | none ↦ record {
        next = m.next ++ entry ∷ [];
        by_seq = set_seq entry.seq (length m.next) m.by_seq;
        by_id = set_id entry.id (some (length m.next)) m.by_id;
      }
      | some i ↦ elim (get_elem? m.next i) [
        | none ↦ m
        | some previous ↦
            let merged = absorbed previous entry in
            let by_id = set_id merged.id (some i) m.by_id in
            record {
              next = replace_at i merged m.next;
              by_seq = set_seq merged.seq i m.by_seq;
              by_id = if previous.id == merged.id then by_id else set_id previous.id none by_id;
            }
      ]
    ]

unfoldable pub merge_all : Merge → List ThreadEntry → Merge
unfolding merge_one
merge_all m [] = m
merge_all m (e ∷ es) = merge_all (merge_one m e) es

-- `find_index` under a client id, and the entry replaced there
has_client : String → ThreadEntry → Bool
has_client client_id e = equals e.client_id client_id

find_index : (ThreadEntry → Bool) → List ThreadEntry → Option ℕ
find_index p [] = none
find_index p (e ∷ es) =
    let later = find_index p es in
    if p e then some 0 else elim later [ none ↦ none | some i ↦ some (suc i) ]

-- The entries that are kept beside the one at `index`, the list's first entry standing at `at`.
dedupe_from : ℕ → ℕ → ThreadEntry → List ThreadEntry → List ThreadEntry
dedupe_from at index archived [] = []
dedupe_from at index archived (e ∷ es) =
    let rest = dedupe_from (at + 1) index archived es in
    if eqb at index || not (ltb 0 e.seq && eqb e.seq archived.seq) && not (e.id == archived.id)
    then e ∷ rest
    else rest

-- `localeCompare` of the host: whether its answer is above 0.
module _ (locale_after : String → String → Bool) where
  -- `compare(a, b) > 0`
  abbrev pub is_after : ThreadEntry → ThreadEntry → Bool
  is_after a b =
      if ltb 0 a.seq
      then (if ltb 0 b.seq
          then (if eqb a.seq b.seq
              then (if eqb a.ts b.ts then locale_after a.id b.id else ltb b.ts a.ts)
              else ltb b.seq a.seq)
          else false)
      else (if ltb 0 b.seq
          then true
          else (if eqb a.ts b.ts then locale_after a.id b.id else ltb b.ts a.ts))

  abbrev place : ThreadEntry → List ThreadEntry → List ThreadEntry
  place x [] = x ∷ []
  place x (y ∷ ys) = let rest = place x ys in if is_after x y then y ∷ rest else x ∷ y ∷ ys

  -- The stable sort of the host, which the comparison determines.
  unfoldable pub sort_thread : List ThreadEntry → List ThreadEntry
  sort_thread [] = []
  sort_thread (e ∷ es) = place e (sort_thread es)

  unfoldable pub merge_entries : List ThreadEntry → List ThreadEntry → List ThreadEntry
  unfolding merge_all index_from
  merge_entries existing incoming =
      let start =
        index_from 0 existing (record { next = existing; by_seq = λ k. none; by_id = λ k. none }) in
      sort_thread (merge_all start incoming).next

  pub apply_archive : ThreadState → List ApiEntry → ℕ → ThreadState
  apply_archive state entries window =
      let incoming = map entry_from_api entries in
      record {
        entries = merge_entries state.entries incoming;
        window = window;
        complete = ltb (length incoming) window;
        loading = false;
        loaded = true;
        error = none;
      }

  pub apply_inbound : ThreadState → InboundMessage → ThreadState
  apply_inbound state m = record state {
    entries = merge_entries state.entries (inbound_entry m ∷ []);
  }

  pub apply_outbound : ThreadState → ApiEntry → ThreadState
  apply_outbound state entry = record state {
    entries = merge_entries state.entries (entry_from_api entry ∷ []);
  }

  unfoldable pub reconcile_send : ThreadState → String → ApiEntry → ThreadState
  unfolding find_index dedupe_from has_client
  reconcile_send state client_id entry =
      let archived = entry_from_api entry in
      elim (find_index (has_client client_id) state.entries) [
        | none ↦ record state { entries = merge_entries state.entries (archived ∷ []) }
        | some index ↦
            let next =
              replace_at index (record archived { client_id = some client_id }) state.entries in
            record state { entries = sort_thread (dedupe_from 0 index archived next) }
      ]

unfoldable pub add_optimistic : ThreadState → String → String → ℕ → ThreadState
add_optimistic state client_id body ts = record state {
  entries = state.entries ++ optimistic client_id body ts ∷ [];
}

unfoldable pub fail_send : ThreadState → String → String → ThreadState
unfolding has_client
fail_send state client_id error = record state {
  entries =
      map
        (λ e.
          if has_client client_id e
          then record e { status = some "failed"; error = some error }
          else e)
        state.entries;
}

unfoldable pub drop_entry : ThreadState → String → ThreadState
unfolding has_client
drop_entry state client_id = record state {
  entries = filter (λ e. not (has_client client_id e)) state.entries;
}

unfoldable pub max_from : ℕ → List ThreadEntry → ℕ
max_from max [] = max
max_from max (e ∷ es) = max_from (if ltb max e.seq then e.seq else max) es

unfoldable pub last_seq : ThreadState → ℕ
unfolding max_from
last_seq state = max_from 0 state.entries
