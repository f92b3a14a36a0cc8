-- ===== src/Inbox/Valid.antt =====
-- No frame of `applyFrame` brings a row twice into a list of the inbox.
use soulnet.Prelude.{String, Bool, false, not, arith, eq_iff}
use soulnet.Prelude.{List, [], ◌∷◌, ◌++◌, ◌==◌, ◌≡◌, refl, sym, ◌∙◌, subst, filter, any}
use soulnet.Prelude.{Bool-cases, inl, inr}
use soulnet.Drafts.{PendingDraft}
use soulnet.Inbox.{ApiFriend, InboxState, patch_friend, without_drafts}
use soulnet.Inbox.Frames.{
  message, outbound, typing, friend_request, friend_accept, presence, draft, group_message,
  group_update, group_outbound, group_application, status, alter, agent, group_typing, memory,
  NetworkEventFrame, apply_frame, DraftAction, added, removed, drafts_after, knows, with_count,
}

module _ {A : Type 0} (key : A → String) where
  -- whether some row has the key
  abbrev has : String → List A → Bool
  has k xs = any (λ y. key y == k) xs

  -- No key stands twice.
  abbrev pub Unrepeated : List A → Type 0
  Unrepeated [] = Unit
  Unrepeated (x ∷ xs) = (has (key x) xs ≡ false) × Unrepeated xs

  has-snoc :
      (k : String) (xs : List A) (x : A)
      → has k xs ≡ false
      → (key x == k) ≡ false
      → has k (xs ++ x ∷ []) ≡ false
  has-snoc k [] x h e = ground (arith, e)
  has-snoc k (y ∷ xs) x h e = ground (arith, has-snoc k xs x)

  append-Unrepeated :
      (xs : List A) (x : A) → has (key x) xs ≡ false → Unrepeated xs → Unrepeated (xs ++ x ∷ [])
  append-Unrepeated [] x h u = (refl, tt)
  append-Unrepeated (y ∷ xs) x h u =
      let other : (key x == key y) ≡ false =
        ground (arith, eq_iff (key x) (key y), eq_iff (key y) (key x)) in
      let rest : has (key x) xs ≡ false = ground arith in
      (has-snoc (key y) xs x u.0 other, append-Unrepeated xs x rest u.1)

  has-filter :
      (p : A → Bool) (k : String) (xs : List A) → has k xs ≡ false → has k (filter p xs) ≡ false
  has-filter p k [] h = refl
  has-filter p k (x ∷ xs) h = ground (arith, has-filter p k xs)

  filter-Unrepeated : (p : A → Bool) (xs : List A) → Unrepeated xs → Unrepeated (filter p xs)
  filter-Unrepeated p [] u = tt
  filter-Unrepeated p (x ∷ xs) u = elim (Bool-cases (p x)) [
    | inl t ↦ rw t (has-filter p (key x) xs u.0, filter-Unrepeated p xs u.1)
    | inr f ↦ rw f (filter-Unrepeated p xs u.1)
  ]

  has_dropped : (k : String) (xs : List A) → has k (filter (λ x. not (key x == k)) xs) ≡ false
  has_dropped k [] = refl
  has_dropped k (x ∷ xs) = ground (arith, has_dropped k xs)

-- A patch of the row under `fp` that leaves its fingerprint alone.
module _ (fp : String) (patch : ApiFriend → ApiFriend) where
  pub knows-patch :
      ((f : ApiFriend) → f.fp ≡ fp → (patch f).fp ≡ fp)
      → (j : String) (fs : List ApiFriend) → knows (patch_friend fs fp patch) j ≡ knows fs j
  unfolding patch_friend
  knows-patch keeps j [] = refl
  knows-patch keeps j (f ∷ fs) = elim (Bool-cases (f.fp == fp)) [
    | inl same ↦
        let e : f.fp ≡ fp = (eq_iff f.fp fp).0 same in
        rw (same, keeps f e, knows-patch keeps j fs, e)
    | inr other ↦ rw (other, knows-patch keeps j fs)
  ]

  patch-Unrepeated :
      ((f : ApiFriend) → f.fp ≡ fp → (patch f).fp ≡ fp)
      → (fs : List ApiFriend) → Unrepeated (λ f. f.fp) fs
      → Unrepeated (λ f. f.fp) (patch_friend fs fp patch)
  unfolding patch_friend
  patch-Unrepeated keeps [] u = tt
  patch-Unrepeated keeps (f ∷ fs) u = elim (Bool-cases (f.fp == fp)) [
    | inl same ↦
        let e : f.fp ≡ fp = (eq_iff f.fp fp).0 same in
        let here : knows (patch_friend fs fp patch) (patch f).fp ≡ false =
          subst (λ x. knows (patch_friend fs fp patch) x ≡ false) (e ∙ sym (keeps f e))
            (knows-patch keeps f.fp fs ∙ u.0) in
        rw same (here, patch-Unrepeated keeps fs u.1)
    | inr other ↦ rw other (knows-patch keeps f.fp fs ∙ u.0, patch-Unrepeated keeps fs u.1)
  ]

-- No friend, no request and no draft stands twice.
pub record IsUnrepeated (s : InboxState) : Type 0 where
  pub friends : Unrepeated (λ f. f.fp) s.friends
  pub pending : Unrepeated (λ p. p.id) s.pending
  pub drafts : Unrepeated (λ d. d.id) s.drafts

pub with_count-fp : (n : Prim.Native.Nat.ℕ) (f : ApiFriend) → (with_count n f).fp ≡ f.fp
unfolding with_count without_drafts
with_count-fp Prim.Native.Nat.zero f = ground arith
with_count-fp (Prim.Native.Nat.suc n) f = refl

drafts_after-Unrepeated :
    (a : DraftAction) (d : PendingDraft) (ds : List PendingDraft)
    → Unrepeated (λ e. e.id) ds
    → Unrepeated (λ e. e.id) (drafts_after a d ds)
drafts_after-Unrepeated removed d ds u = filter-Unrepeated (λ e. e.id) _ ds u
drafts_after-Unrepeated added d ds u =
    append-Unrepeated (λ e. e.id) _ d (has_dropped (λ e. e.id) d.id ds)
      (filter-Unrepeated (λ e. e.id) _ ds u)

-- Every frame keeps the friends, the requests and the drafts free of repeated rows.
pub apply_frame-IsUnrepeated :
    (s : InboxState) (frame : NetworkEventFrame)
    → IsUnrepeated s
    → IsUnrepeated (apply_frame s frame).0
unfolding apply_frame
apply_frame-IsUnrepeated s (message m) u = elim (Bool-cases (knows s.friends m.from)) [
  | inl known ↦ rw known (record {
    friends = patch-Unrepeated m.from _ (λ f e. e) s.friends u.friends;
    pending = u.pending;
    drafts = u.drafts;
  })
  | inr new ↦ rw new (record {
    friends = append-Unrepeated (λ f. f.fp) s.friends _ new u.friends;
    pending = u.pending;
    drafts = u.drafts;
  })
]
apply_frame-IsUnrepeated s (outbound fp e) u = record {
  friends = patch-Unrepeated fp _ (λ f e. ground arith) s.friends u.friends;
  pending = u.pending;
  drafts = u.drafts;
}
apply_frame-IsUnrepeated s (typing fp on) u = record {
  friends = u.friends;
  pending = u.pending;
  drafts = u.drafts;
}
apply_frame-IsUnrepeated s (friend_request r) u =
    elim (Bool-cases (any (λ p. p.id == r.id) s.pending)) [
      | inl known ↦ rw known u
      | inr new ↦ rw new (record {
        friends = u.friends;
        pending = append-Unrepeated (λ p. p.id) s.pending r new u.pending;
        drafts = u.drafts;
      })
    ]
apply_frame-IsUnrepeated s (friend_accept g) u = elim (Bool-cases (knows s.friends g.fp)) [
  | inl known ↦ rw known (record {
    friends = patch-Unrepeated g.fp _ (λ f e. refl) s.friends u.friends;
    pending = filter-Unrepeated (λ p. p.id) _ s.pending u.pending;
    drafts = u.drafts;
  })
  | inr new ↦ rw new (record {
    friends = append-Unrepeated (λ f. f.fp) s.friends g new u.friends;
    pending = filter-Unrepeated (λ p. p.id) _ s.pending u.pending;
    drafts = u.drafts;
  })
]
apply_frame-IsUnrepeated s (presence fp on) u = record {
  friends = patch-Unrepeated fp _ (λ f e. e) s.friends u.friends;
  pending = u.pending;
  drafts = u.drafts;
}
apply_frame-IsUnrepeated s (draft a d) u = record {
  friends = patch-Unrepeated d.fp _ (λ f e. rw (with_count-fp _ f) e) s.friends u.friends;
  pending = u.pending;
  drafts = drafts_after-Unrepeated a d s.drafts u.drafts;
}
apply_frame-IsUnrepeated s (group_message gid m) u = record {
  friends = u.friends;
  pending = u.pending;
  drafts = u.drafts;
}
apply_frame-IsUnrepeated s (group_update gid) u = u
apply_frame-IsUnrepeated s (group_outbound gid e) u = record {
  friends = u.friends;
  pending = u.pending;
  drafts = u.drafts;
}
apply_frame-IsUnrepeated s (group_application gid) u = record {
  friends = u.friends;
  pending = u.pending;
  drafts = u.drafts;
}
apply_frame-IsUnrepeated s (status x) u = u
apply_frame-IsUnrepeated s (alter x) u = u
apply_frame-IsUnrepeated s (agent x) u = u
apply_frame-IsUnrepeated s (group_typing x) u = u
apply_frame-IsUnrepeated s (memory x) u = u
