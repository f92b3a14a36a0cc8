-- ===== src/Inbox/Badges.antt =====
-- The draft count on every friend's row, against the list of drafts it counts.
use soulnet.Prelude.{ℕ, zero, suc, ◌+◌, String, Bool, true, false, not, Option, none, arith}
use soulnet.Prelude.{eq_iff, List, [], ◌∷◌, ◌++◌, ◌==◌, ◌≡◌, refl, subst, ◌∙◌, get_or}
use soulnet.Prelude.{Bool-cases, inl, inr, ◌⊎◌, any, filter, length, All, map}
use soulnet.Prelude.{All-append}
use soulnet.Prelude.Dict.{lookup}
use soulnet.FriendSettings.{over}
use soulnet.Drafts.{PendingDraft, counts_from}
use soulnet.Drafts.Counts.{shown, lookup-counts_from}
use soulnet.Inbox.{
  ApiFriend, ApiState, InboxState, fresh_row, from_api_state, patch_friend, without_drafts,
}
use soulnet.Inbox.Valid.{with_count-fp}
use soulnet.Inbox.Frames.{
  message, outbound, typing, friend_request, friend_accept, presence, draft, group_message,
  group_update, group_outbound, group_application, status, alter, agent, group_typing, memory,
  NetworkEventFrame, DraftAction, added, removed, apply_frame, drafts_after, knows, with_count,
  take_mail, provisional,
}

-- how many drafts are for a friend
abbrev pub drafts_to : String → List PendingDraft → ℕ
drafts_to fp ds = length (filter (λ d. d.fp == fp) ds)

-- The row shows the number of drafts for its friend, and none at all for 0.
abbrev pub Counts : List PendingDraft → ApiFriend → Type 0
Counts ds f = f.drafts ≡ shown (drafts_to f.fp ds)

lookup-all :
    (fp : String) (ds : List PendingDraft) → lookup fp (counts_from [] ds) ≡ shown (drafts_to fp ds)
unfolding lookup
lookup-all fp ds =
    let n = drafts_to fp ds in
    let e : 0 + n ≡ n = omega arith in rw (← e) (lookup-counts_from fp [] 0 ds refl)

fresh_row-drafts :
    (n : Option ℕ) (was : Option Bool) (f : ApiFriend) → (fresh_row n was f).drafts ≡ n
unfolding fresh_row without_drafts
fresh_row-drafts n was f = ground arith

fresh_row-fp : (n : Option ℕ) (was : Option Bool) (f : ApiFriend) → (fresh_row n was f).fp ≡ f.fp
unfolding fresh_row without_drafts
fresh_row-fp n was f = ground arith

All-map :
    (P : ApiFriend → Type 0) (row : ApiFriend → ApiFriend)
    → ((f : ApiFriend) → P (row f))
    → (fs : List ApiFriend) → All P (map row fs)
All-map P row h [] = tt
All-map P row h (f ∷ fs) = (h f, All-map P row h fs)

-- After a fresh answer of `/state` every row shows the number of its drafts, whatever the rows of
-- the answer said.
pub from_api_state-Counts :
    (previous : InboxState) (state : ApiState)
    → All (Counts (from_api_state previous state).drafts) (from_api_state previous state).friends
unfolding from_api_state
from_api_state-Counts previous state =
    All-map (Counts (get_or state.drafts [])) _
      (λ f. rw (fresh_row-fp, fresh_row-drafts) (lookup-all f.fp (get_or state.drafts [])))
      state.friends

-- What a frame must bring: a new row comes with the right count, a known one with that or with
-- none, and a draft keeps its friend while it keeps its id.
abbrev pub Fits : InboxState → NetworkEventFrame → Type 0
Fits s (message m) = (knows s.friends m.from ≡ true) ⊎ (drafts_to m.from s.drafts ≡ 0)
Fits s (friend_accept g) = Counts s.drafts g ⊎ ((knows s.friends g.fp ≡ true) × (g.drafts ≡ none))
Fits s (draft a d) = All (λ e. ((e.id == d.id) ≡ false) ⊎ (e.fp ≡ d.fp)) s.drafts
Fits s _ = Unit

module _ (ds : List PendingDraft) (fp : String) (patch : ApiFriend → ApiFriend) where
  All-patch :
      ((f : ApiFriend) → f.fp ≡ fp → Counts ds f → Counts ds (patch f))
      → (fs : List ApiFriend) → All (Counts ds) fs
      → All (Counts ds) (patch_friend fs fp patch)
  unfolding patch_friend
  All-patch keeps [] h = tt
  All-patch keeps (f ∷ fs) h = elim (Bool-cases (f.fp == fp)) [
    | inl same ↦ rw same (keeps f ((eq_iff f.fp fp).0 same) h.0, All-patch keeps fs h.1)
    | inr other ↦ rw other (h.0, All-patch keeps fs h.1)
  ]

with_count-drafts : (n : ℕ) (f : ApiFriend) → (with_count n f).drafts ≡ shown n
unfolding with_count without_drafts
with_count-drafts zero f = ground arith
with_count-drafts (suc n) f = refl

-- The list after a draft frame counts as before for every other friend.
drafts_to-drop :
    (fp : String) (d : PendingDraft) (ds : List PendingDraft)
    → All (λ e. ((e.id == d.id) ≡ false) ⊎ (e.fp ≡ d.fp)) ds
    → (d.fp == fp) ≡ false
    → drafts_to fp (filter (λ e. not (e.id == d.id)) ds) ≡ drafts_to fp ds
drafts_to-drop fp d [] h ne = refl
drafts_to-drop fp d (e ∷ ds) h ne =
    let ih = drafts_to-drop fp d ds h.1 ne in
    elim h.0 [
      | inl other ↦ ground (arith, ih)
      | inr same ↦ let apart : (e.fp == fp) ≡ false = rw same ne in ground (arith, ih)
    ]

drafts_to-snoc :
    (fp : String) (d : PendingDraft) (ds : List PendingDraft)
    → (d.fp == fp) ≡ false
    → drafts_to fp (ds ++ d ∷ []) ≡ drafts_to fp ds
drafts_to-snoc fp d [] ne = ground arith
drafts_to-snoc fp d (e ∷ ds) ne = ground (arith, drafts_to-snoc fp d ds ne)

drafts_to-after :
    (fp : String) (a : DraftAction) (d : PendingDraft) (ds : List PendingDraft)
    → All (λ e. ((e.id == d.id) ≡ false) ⊎ (e.fp ≡ d.fp)) ds
    → (d.fp == fp) ≡ false
    → drafts_to fp (drafts_after a d ds) ≡ drafts_to fp ds
drafts_to-after fp removed d ds h ne = drafts_to-drop fp d ds h ne
drafts_to-after fp added d ds h ne = drafts_to-snoc fp d _ ne ∙ drafts_to-drop fp d ds h ne

All-draft :
    (a : DraftAction) (d : PendingDraft) (ds : List PendingDraft)
    → All (λ e. ((e.id == d.id) ≡ false) ⊎ (e.fp ≡ d.fp)) ds
    → (fs : List ApiFriend) → All (Counts ds) fs
    → All
        (Counts (drafts_after a d ds))
        (patch_friend fs d.fp (with_count (drafts_to d.fp (drafts_after a d ds))))
unfolding patch_friend
All-draft a d ds fits [] h = tt
All-draft a d ds fits (f ∷ fs) h = elim (Bool-cases (f.fp == d.fp)) [
  | inl same ↦
      let n = drafts_to d.fp (drafts_after a d ds) in
      let e : (with_count n f).fp ≡ d.fp = with_count-fp n f ∙ (eq_iff f.fp d.fp).0 same in
      rw same (rw e (with_count-drafts n f), All-draft a d ds fits fs h.1)
  | inr other ↦
      let apart : (d.fp == f.fp) ≡ false = ground (arith, eq_iff f.fp d.fp, eq_iff d.fp f.fp) in
      rw other (rw (drafts_to-after f.fp a d ds fits apart) h.0, All-draft a d ds fits fs h.1)
]

over_same : (x y o : Option ℕ) → x ≡ o → y ≡ o → over x y ≡ o
over_same x y o h k = ground arith

moved :
    (ds : List PendingDraft) (f : ApiFriend) (fp : String)
    → f.fp ≡ fp
    → Counts ds f
    → f.drafts ≡ shown (drafts_to fp ds)
moved ds f fp e c = subst (λ x. f.drafts ≡ shown (drafts_to x ds)) e c

-- Every frame that fits keeps the draft count of every row right.
pub apply_frame-Counts :
    (s : InboxState) (frame : NetworkEventFrame)
    → Fits s frame
    → All (Counts s.drafts) s.friends
    → All (Counts (apply_frame s frame).0.drafts) (apply_frame s frame).0.friends
unfolding apply_frame
apply_frame-Counts s (message m) fits h = elim (Bool-cases (knows s.friends m.from)) [
  | inl known ↦ rw known (All-patch s.drafts m.from (take_mail m) (λ f e c. c) s.friends h)
  | inr new ↦
      let no_drafts : drafts_to m.from s.drafts ≡ 0 = ground arith in
      let row : Counts s.drafts (provisional m) = rw no_drafts in
      rw new (All-append (Counts s.drafts) s.friends (provisional m ∷ []) h (row, tt))
]
apply_frame-Counts s (outbound fp e) fits h =
    All-patch s.drafts fp _ (λ f same c. ground arith) s.friends h
apply_frame-Counts s (typing fp on) fits h = h
apply_frame-Counts s (friend_request r) fits h =
    elim (Bool-cases (any (λ p. p.id == r.id) s.pending)) [
      | inl known ↦ rw known h
      | inr new ↦ rw new h
    ]
apply_frame-Counts s (friend_accept g) fits h = elim (Bool-cases (knows s.friends g.fp)) [
  | inl known ↦ rw known (
      All-patch s.drafts g.fp _
        (λ f same c. elim fits [
          | inl right ↦ over_same g.drafts f.drafts _ right (moved s.drafts f g.fp same c)
          | inr (k, absent) ↦ rw absent (moved s.drafts f g.fp same c)
        ])
        s.friends h)
  | inr new ↦
      let row : Counts s.drafts g = elim fits [
        | inl right ↦ right
        | inr (k, absent) ↦ absurd (ground arith)
      ] in
      rw new (All-append (Counts s.drafts) s.friends (g ∷ []) h (row, tt))
]
apply_frame-Counts s (presence fp on) fits h = All-patch s.drafts fp _ (λ f same c. c) s.friends h
apply_frame-Counts s (draft a d) fits h = All-draft a d s.drafts fits s.friends h
apply_frame-Counts s (group_message gid m) fits h = h
apply_frame-Counts s (group_update gid) fits h = h
apply_frame-Counts s (group_outbound gid e) fits h = h
apply_frame-Counts s (group_application gid) fits h = h
apply_frame-Counts s (status x) fits h = h
apply_frame-Counts s (alter x) fits h = h
apply_frame-Counts s (agent x) fits h = h
apply_frame-Counts s (group_typing x) fits h = h
apply_frame-Counts s (memory x) fits h = h
