-- ===== src/Page/Thread/Send.antt =====
-- The life of an optimistic message: shown, then answered, failed or dropped.
use soulnet.Prelude.{
  ℕ, zero, suc, ◌+◌, ◌<◌, subst, append-nil, String, Bool, true, false, not, ◌&&◌, ◌||◌, arith,
}
use soulnet.Prelude.{some, List, [], ◌∷◌, ◌==◌, ◌≡◌, refl, ap, ◌∙◌, eq_refl}
use soulnet.Prelude.{filter, count, any, Bool-cases, inl, inr, ltb, eqb}
use soulnet.Prelude.{equals, filter-append}
use soulnet.Inbox.Frames.{ApiEntry}
use soulnet.Page.Entry.{ThreadEntry, ThreadState, optimistic, entry_from_api}
use soulnet.Page.Thread.{
  has_client, add_optimistic, drop_entry, find_index, replace_at, dedupe_from, reconcile_send,
  sort_thread,
}
use soulnet.Page.Thread.Order.{count-sort_thread}

-- whether some message of the thread has the client id
abbrev pub holds : ThreadState → String → Bool
holds s client_id = any (λ e. equals e.client_id client_id) s.entries

drop_absent :
    (client_id : String) (es : List ThreadEntry)
    → any (λ e. equals e.client_id client_id) es ≡ false
    → filter (λ e. not (has_client client_id e)) es ≡ es
unfolding has_client
drop_absent client_id [] h = refl
drop_absent client_id (e ∷ es) h = ground (arith, drop_absent client_id es)

-- Discarding a message that was just written gives the thread before, if its client id is new.
pub drop_entry-add_optimistic :
    (s : ThreadState) (client_id body : String) (ts : ℕ)
    → holds s client_id ≡ false
    → drop_entry (add_optimistic s client_id body ts) client_id ≡ s
unfolding drop_entry add_optimistic has_client
drop_entry-add_optimistic s client_id body ts h =
    let mine : filter (λ e. not (has_client client_id e)) (optimistic client_id body ts ∷ []) ≡ [] =
      rw eq_refl in
    ap (λ es. record s { entries = es })
      (filter-append (λ e. not (has_client client_id e)) s.entries
          (optimistic client_id body ts ∷ [])
        ∙ rw (drop_absent client_id s.entries h, mine) (append-nil s.entries))

-- the entries that stand for the archived one
abbrev pub stands_for : ApiEntry → ThreadEntry → Bool
stands_for entry e = e.id == entry.id || ltb 0 e.seq && eqb e.seq entry.seq

module _ (entry : ApiEntry) (q : ThreadEntry → Bool)
    (stands : (e : ThreadEntry) → q e ≡ true → stands_for entry e ≡ true) where
  -- Behind the replaced entry nothing is left that stands for the archived one.
  count_behind :
      (at index : ℕ) (es : List ThreadEntry)
      → index < at
      → count q (dedupe_from at index (entry_from_api entry) es) ≡ 0
  unfolding dedupe_from
  count_behind at index [] h = refl
  count_behind at index (e ∷ es) h =
      ground (arith, stands e, count_behind (at + 1) index es (omega arith))

  count_kept :
      (p : ThreadEntry → Bool) (at k : ℕ) (new : ThreadEntry) (es : List ThreadEntry)
      → find_index p es ≡ some k
      → q new ≡ true
      → count q (dedupe_from at (at + k) (entry_from_api entry) (replace_at k new es)) ≡ 1
  unfolding dedupe_from find_index
  count_kept p at zero new [] found t = absurd (ground arith)
  count_kept p at zero new (e ∷ es) found t =
      let behind = count_behind (at + 1) (at + zero) es (omega arith) in ground (arith, behind)
  count_kept p at (suc k) new [] found t = absurd (ground arith)
  count_kept p at (suc k) new (e ∷ es) found t =
      let later : find_index p es ≡ some k = ground arith in
      let shift : (at + 1) + k ≡ at + suc k = omega arith in
      let ih : count q
            (dedupe_from (at + 1) (at + suc k) (entry_from_api entry) (replace_at k new es))
          ≡ 1 =
        subst
          (λ i. count q (dedupe_from (at + 1) i (entry_from_api entry) (replace_at k new es)) ≡ 1)
          shift (count_kept p (at + 1) k new es later t) in
      ground (arith, stands e, ih)

holds→found :
    (client_id : String) (es : List ThreadEntry)
    → any (λ e. equals e.client_id client_id) es ≡ true
    → (k : ℕ) × (find_index (has_client client_id) es ≡ some k)
unfolding find_index has_client
holds→found client_id [] h = absurd (ground arith)
holds→found client_id (e ∷ es) h = elim (Bool-cases (equals e.client_id client_id)) [
  | inl here ↦ (zero, rw here)
  | inr other ↦
      let (k, found) = holds→found client_id es (ground arith) in (suc k, rw (other, found))
]

-- When the host answers for a message that the thread shows, the archived entry takes its place:
-- afterwards one entry of the thread has the archived id or number, though an event may have brought
-- it before, and that one has the client id of the message.
pub reconcile_send-Once :
    (locale_after : String → String → Bool) (s : ThreadState) (client_id : String)
    (entry : ApiEntry)
    → holds s client_id ≡ true
    → (count (stands_for entry) (reconcile_send locale_after s client_id entry).entries ≡ 1)
      × (count
            (λ e. stands_for entry e && equals e.client_id client_id)
            (reconcile_send locale_after s client_id entry).entries
          ≡ 1)
unfolding reconcile_send
reconcile_send-Once locale_after s client_id entry h =
    let (k, found) = holds→found client_id s.entries h in
    let new : ThreadEntry = record (entry_from_api entry) { client_id = some client_id } in
    let at_zero : 0 + k ≡ k = omega arith in
    let deduped = dedupe_from 0 k (entry_from_api entry) (replace_at k new s.entries) in
    let once : (q : ThreadEntry → Bool)
        → ((e : ThreadEntry) → q e ≡ true → stands_for entry e ≡ true)
        → q new ≡ true
        → count q (sort_thread locale_after deduped) ≡ 1 =
      λ q stands t.
        count-sort_thread locale_after q deduped
        ∙ subst
            (λ i. count q (dedupe_from 0 i (entry_from_api entry) (replace_at k new s.entries)) ≡ 1)
            at_zero (count_kept entry q stands (has_client client_id) 0 k new s.entries found t) in
    rw (reconcile_send, found)
      (
        once (stands_for entry) (λ e t. t) (rw eq_refl),
        once (λ e. stands_for entry e && equals e.client_id client_id) (λ e t. ground arith)
            (rw (eq_refl entry.id, eq_refl client_id)),
      )
