-- ===== src/Inbox/Unread.antt =====
-- The badge of unread mail, `unreadTotal` of client/inbox-state.ts, across the frames and the
-- owner's clicks.
use soulnet.Prelude.{ℕ, ◌+◌, ◌≢◌, eq_refl, String, Bool, true, false, Option, none, some, arith}
use soulnet.Prelude.{eq_iff, List, [], ◌∷◌, ◌++◌, ◌==◌, ◌≡◌, refl, ap, subst, ◌∙◌, get_or}
use soulnet.Prelude.{if◌then◌else◌, Bool-cases, inl, inr, ltb, ◌&&◌, any}
use soulnet.Inbox.{ApiFriend, InboxState, badge_of, unread_from, unread_total, patch_friend}
use soulnet.Inbox.Frames.{
  message, FrameMessage, apply_frame, knows, friend_named, take_mail, provisional,
}
use soulnet.Inbox.Local.{mark_read_local}
use soulnet.Inbox.Valid.{Unrepeated}

abbrev badges : List ApiFriend → ℕ
badges [] = 0
badges (f ∷ fs) = badge_of f + badges fs

unread_from-eq-add : (n : ℕ) (fs : List ApiFriend) → unread_from n fs ≡ n + badges fs
unfolding unread_from
unread_from-eq-add n [] = omega arith
unread_from-eq-add n (f ∷ fs) = omega (arith, unread_from-eq-add (n + badge_of f) fs)

unread_total-eq-badges : (fs : List ApiFriend) → unread_total fs ≡ badges fs
unfolding unread_total
unread_total-eq-badges fs = omega (arith, unread_from-eq-add 0 fs)

badges-snoc : (fs : List ApiFriend) (f : ApiFriend) → badges (fs ++ f ∷ []) ≡ badges fs + badge_of f
badges-snoc [] f = omega arith
badges-snoc (g ∷ fs) f = omega (arith, badges-snoc fs f)

unread_total-snoc :
    (fs : List ApiFriend) (f : ApiFriend)
    → unread_total (fs ++ f ∷ []) ≡ unread_total fs + badge_of f
unread_total-snoc fs f =
    rw (unread_total-eq-badges (fs ++ f ∷ []), unread_total-eq-badges fs) (badges-snoc fs f)

-- What the badge of a row is under a fingerprint, 0 without a row.
abbrev pub badge_in : Option ApiFriend → ℕ
badge_in none = 0
badge_in (some f) = badge_of f

module _ (fp : String) (patch : ApiFriend → ApiFriend) where
  patch_unknown : (fs : List ApiFriend) → knows fs fp ≡ false → patch_friend fs fp patch ≡ fs
  unfolding patch_friend
  patch_unknown [] h = refl
  patch_unknown (f ∷ fs) h = ground (arith, patch_unknown fs)

  abbrev patched_in : Option ApiFriend → Option ApiFriend
  patched_in none = none
  patched_in (some f) = some (patch f)

  badges-patch :
      (fs : List ApiFriend)
      → Unrepeated (λ f. f.fp) fs
      → badges (patch_friend fs fp patch) + badge_in (friend_named fs fp)
        ≡ badges fs + badge_in (patched_in (friend_named fs fp))
  unfolding patch_friend
  badges-patch [] u = refl
  badges-patch (f ∷ fs) u = elim (Bool-cases (f.fp == fp)) [
    | inl same ↦
        let e : f.fp ≡ fp = (eq_iff f.fp fp).0 same in
        let alone : knows fs fp ≡ false = rw (← e) u.0 in
        rw (same, patch_unknown fs alone) (omega arith)
    | inr other ↦ let ih = badges-patch fs u.1 in rw other (omega arith)
  ]

  unread_total-patch :
      (fs : List ApiFriend)
      → Unrepeated (λ f. f.fp) fs
      → unread_total (patch_friend fs fp patch) + badge_in (friend_named fs fp)
        ≡ unread_total fs + badge_in (patched_in (friend_named fs fp))
  unread_total-patch fs u =
      rw (unread_total-eq-badges (patch_friend fs fp patch), unread_total-eq-badges fs)
        (badges-patch fs u)

  friend_named-patch :
      ((f : ApiFriend) → f.fp ≡ fp → (patch f).fp ≡ fp)
      → (j : String) (fs : List ApiFriend)
      → friend_named (patch_friend fs fp patch) j
        ≡ (if fp == j then patched_in (friend_named fs j) else friend_named fs j)
  unfolding patch_friend
  friend_named-patch keeps j [] = ground arith
  friend_named-patch keeps j (f ∷ fs) = elim (Bool-cases (f.fp == fp)) [
    | inl same ↦
        let e : f.fp ≡ fp = (eq_iff f.fp fp).0 same in
        let ih = friend_named-patch keeps j fs in
        let there : ((patch f).fp == j) ≡ (fp == j) = ap (λ x. x == j) (keeps f e) in
        let here : (f.fp == j) ≡ (fp == j) = ap (λ x. x == j) e in
        rw same (rw (there, here) (ground (arith, ih)))
    | inr other ↦
        let ih = friend_named-patch keeps j fs in
        rw other (ground (arith, ih, eq_iff f.fp j, eq_iff fp j, eq_iff f.fp fp))
  ]

-- whether the sender's row is muted
abbrev pub mutes : Option ApiFriend → Bool
mutes none = false
mutes (some f) = get_or f.muted false

knows→named :
    (fp : String) (fs : List ApiFriend)
    → knows fs fp ≡ true
    → (f : ApiFriend) × (friend_named fs fp ≡ some f)
knows→named fp [] h = absurd (ground arith)
knows→named fp (f ∷ fs) h = elim (Bool-cases (f.fp == fp)) [
  | inl same ↦ (f, rw same)
  | inr other ↦
      let later : knows fs fp ≡ true = ground arith in
      let ih = knows→named fp fs later in (ih.0, rw other ih.1)
]

unknown→unnamed :
    (fp : String) (fs : List ApiFriend) → knows fs fp ≡ false → friend_named fs fp ≡ none
unknown→unnamed fp [] h = refl
unknown→unnamed fp (f ∷ fs) h = ground (arith, unknown→unnamed fp fs)

badge-take_mail :
    (m : FrameMessage) (f : ApiFriend)
    → badge_of (take_mail m f) ≡ (if get_or f.muted false then badge_of f else badge_of f + 1)
badge-take_mail m f = ground arith

-- Mail raises the badge by one, whether the sender is in the list or not, and leaves it alone when
-- the sender is muted.
pub unread_total-message :
    (s : InboxState) (m : FrameMessage)
    → Unrepeated (λ f. f.fp) s.friends
    → unread_total (apply_frame s (message m)).0.friends ≡ (
        if mutes (friend_named s.friends m.from)
        then unread_total s.friends
        else unread_total s.friends + 1)
unfolding apply_frame
unread_total-message s m u = elim (Bool-cases (knows s.friends m.from)) [
  | inl known ↦
      let (f, found) = knows→named m.from s.friends known in
      let after = unread_total (patch_friend s.friends m.from (take_mail m)) in
      let sum : after + badge_of f ≡ unread_total s.friends + badge_of (take_mail m f) =
        subst
          (λ o.
            after + badge_in o
            ≡ unread_total s.friends + badge_in (patched_in m.from (take_mail m) o))
          found (unread_total-patch m.from (take_mail m) s.friends u) in
      rw (known, found) (ground (arith, sum, badge-take_mail m f))
  | inr new ↦
      rw (new, unknown→unnamed m.from s.friends new) (unread_total-snoc s.friends (provisional m))
]

abbrev pub unread_in : Option ApiFriend → ℕ
unread_in none = 0
unread_in (some f) = f.unread

abbrev read : ApiFriend → ApiFriend
read f = record f { unread = 0 }

badge_read : (fp : String) (o : Option ApiFriend) → badge_in (patched_in fp read o) ≡ 0
badge_read fp none = refl
badge_read fp (some f) = refl

unread_read : (fp : String) (o : Option ApiFriend) → unread_in (patched_in fp read o) ≡ 0
unread_read fp none = refl
unread_read fp (some f) = refl

none_badge : (o : Option ApiFriend) → unread_in o ≡ 0 → badge_in o ≡ 0
none_badge none h = refl
none_badge (some f) h = ground arith

nothing_unread :
    (fp : String) (fs : List ApiFriend)
    → any (λ f. f.fp == fp && ltb 0 f.unread) fs ≡ false
    → unread_in (friend_named fs fp) ≡ 0
nothing_unread fp [] h = refl
nothing_unread fp (f ∷ fs) h = ground (arith, nothing_unread fp fs)

-- Reading a friend's mail takes exactly the friend's unread mail off the badge, leaves nothing
-- unread of the friend, and changes the row of no other.
pub unread_total-mark_read :
    (s : InboxState) (fp j : String)
    → Unrepeated (λ f. f.fp) s.friends
    → fp ≢ j
    → (unread_total (mark_read_local s fp).friends + badge_in (friend_named s.friends fp)
        ≡ unread_total s.friends)
      × (unread_in (friend_named (mark_read_local s fp).friends fp) ≡ 0)
      × (friend_named (mark_read_local s fp).friends j ≡ friend_named s.friends j)
unfolding mark_read_local
unread_total-mark_read s fp j u ne =
    elim (Bool-cases (any (λ f. f.fp == fp && ltb 0 f.unread) s.friends)) [
      | inl some_unread ↦
          let sum = unread_total-patch fp read s.friends u in
          let mine = friend_named-patch fp read (λ f e. e) fp s.friends in
          let other = friend_named-patch fp read (λ f e. e) j s.friends in
          rw some_unread (
            omega (arith, sum, badge_read fp (friend_named s.friends fp)),
            rw (mine, eq_refl) (unread_read fp (friend_named s.friends fp)),
            other ∙ ground (arith, eq_iff fp j),
          )
      | inr none_unread ↦
          let zero_in = nothing_unread fp s.friends none_unread in
          rw none_unread
            (omega (arith, none_badge (friend_named s.friends fp) zero_in), zero_in, refl)
    ]
