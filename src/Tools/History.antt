-- ===== src/Tools/History.antt =====
-- The hourly cap of a group over the growth of its archive: the posts of
-- `soulmirror_send_group_message` one after the other, and what else is said in between.
use soulnet.Prelude.{ℕ, ◌+◌, ◌≤◌, ◌<◌, Bool, true, false, ◌&&◌, some, arith, ltb, equals}
use soulnet.Prelude.{
  List, [], ◌∷◌, ◌++◌, All, All-append, map, count, count-append, count-le-length,
}
use soulnet.Prelude.{◌≡◌, refl, ap, ◌∙◌, subst, inl, inr}
use soulnet.Prelude.Int.{pos, lt_count}
use soulnet.Policy.{AllowReason}
use soulnet.Policy.Group.{GroupSendDecision, allow, draft, refuse}
use soulnet.Policy.Gates.{group_send_gate-allow_iff}
use soulnet.Policy.Window.{hour_ms}
use soulnet.Policy.Caps.{Direction, count_auto_in_window, count_auto-eq-count, in_auto_window}
use soulnet.Policy.Mentions.{Text}
use soulnet.Contract.{WireProfile, normalize_group_profile}
use soulnet.Tools.Group.{
  GroupCall, GroupEntry, posted, caps_of, entries_of, cap_entry, carry_out_post, gate_input,
  send_group_message,
}

abbrev is_mine : Direction → Bool
is_mine Direction.outgoing = true
is_mine Direction.incoming = false

-- A post of an own voice that nobody instructed.
abbrev pub is_automatic : GroupEntry → Bool
is_automatic e = is_mine e.dir && e.auto && equals e.by "alter"

-- an automatic post of the hour before `now`
abbrev pub is_recent_automatic : ℕ → GroupEntry → Bool
is_recent_automatic now e = is_automatic e && ltb now (e.ts + hour_ms)

carry_out_post-flagged :
    (c : GroupCall) (d : GroupSendDecision)
    → carry_out_post c d ≡ posted true
    → (r : AllowReason) × (d ≡ allow true r)
carry_out_post-flagged c (refuse reason) h = absurd (ground (arith, h))
carry_out_post-flagged c (draft reason) h = absurd (ground (arith, h))
carry_out_post-flagged c (allow flag reason) h =
    (reason, ap (λ b. allow b reason) (ground (arith, h)))

abbrev EntriesBefore : ℕ → List GroupEntry → Type 0
EntriesBefore t es = All (λ (e : GroupEntry). e.ts ≤ t) es

module _ (to_lower_case : Text → Text) (profile : WireProfile) where
  -- How the archive of a group with this profile grows: by entries that are no automatic posts, and
  -- by posts that the tool makes as automatic ones, reading the whole archive, in the order of time.
  pub data History : ℕ → List GroupEntry → Type 0 where
    empty : (t : ℕ) → History t []
    said :
        (t : ℕ) (es : List GroupEntry) (e : GroupEntry)
        → History t es
        → t ≤ e.ts
        → is_automatic e ≡ false
        → History e.ts (es ++ e ∷ [])
    posts :
        (t : ℕ) (es : List GroupEntry) (e : GroupEntry) (c : GroupCall)
        → History t es
        → c.profile ≡ profile
        → c.conversation 200 ≡ some es
        → t ≤ c.now
        → send_group_message to_lower_case c ≡ posted true
        → c.now ≤ e.ts
        → History e.ts (es ++ e ∷ [])

-- The counter, over entries none of which is of the time to come.
counted :
    (now : ℕ) (es : List GroupEntry)
    → EntriesBefore now es
    → count (in_auto_window now hour_ms) (map cap_entry es) ≡ count (is_recent_automatic now) es
unfolding in_auto_window
counted now [] h = refl
counted now (e ∷ es) h = ground (arith, h.0, counted now es h.1)

fewer_later :
    (t now : ℕ) (es : List GroupEntry)
    → t ≤ now
    → count (is_recent_automatic now) es ≤ count (is_recent_automatic t) es
fewer_later t now [] h = omega arith
fewer_later t now (e ∷ es) h = ground (arith, fewer_later t now es h)

before_later :
    (t now : ℕ) (es : List GroupEntry) → t ≤ now → EntriesBefore t es → EntriesBefore now es
before_later t now [] h k = tt
before_later t now (e ∷ es) h k = (omega (arith, h, k.0), before_later t now es h k.1)

-- An automatic post is made below the cap.
flagged-lt :
    (to_lower_case : Text → Text) (c : GroupCall) (m : ℕ)
    → (normalize_group_profile c.profile).auto_per_hour ≡ pos m
    → send_group_message to_lower_case c ≡ posted true
    → count_auto_in_window (caps_of c) c.now hour_ms < m
unfolding send_group_message
flagged-lt to_lower_case c m capped h =
    let (r, allowed) = carry_out_post-flagged c _ h in
    elim ((group_send_gate-allow_iff (gate_input to_lower_case c) true r).0 allowed) [
      | inl (_, unflagged, _, _) ↦ absurd (ground (arith, unflagged))
      | inr (_, _, _, _, _, _, _, below, _) ↦ ground (
        arith,
        subst (λ z. lt_count (count_auto_in_window (caps_of c) c.now hour_ms) z ≡ true) capped
            below,
      )
    ]

module _ (to_lower_case : Text → Text) (profile : WireProfile) (m : ℕ)
    (capped : (normalize_group_profile profile).auto_per_hour ≡ pos m) where
  History-before :
      (t : ℕ) (es : List GroupEntry) → History to_lower_case profile t es → EntriesBefore t es
  History-before _ _ (empty t) = tt
  History-before _ _ (said t es e h le _) =
      All-append _ es (e ∷ []) (before_later t e.ts es le (History-before t es h)) (omega arith, tt)
  History-before _ _ (posts t es e c h _ _ le _ le') =
      All-append _ es (e ∷ [])
        (before_later t e.ts es (omega (arith, le, le')) (History-before t es h)) (omega arith, tt)

  -- A group has a profile with an hourly cap; its archive grows in the order of time, its automatic
  -- posts of own voices are those of the tool, each call of which got the whole archive as the answer
  -- of the network. Then at any time from its last entry on the archive has at most as many automatic
  -- posts of the last hour as the cap.
  pub recent_automatic-le :
      (t now : ℕ) (es : List GroupEntry)
      → History to_lower_case profile t es
      → t ≤ now
      → count (is_recent_automatic now) es ≤ m
  recent_automatic-le _ now _ (empty t) le = omega arith
  recent_automatic-le _ now _ (said t es e h order quiet) le =
      let before = recent_automatic-le t now es h (omega (arith, order, le)) in
      let grown = count-append (is_recent_automatic now) es (e ∷ []) in
      ground (arith, before, grown, quiet)
  recent_automatic-le _ now _ (posts t es e c h same answer order sent order') le =
      let below =
        flagged-lt to_lower_case c m
          (ap (λ (p : WireProfile). (normalize_group_profile p).auto_per_hour) same ∙ capped)
          sent in
      let read : entries_of c ≡ es = rw answer refl in
      let number =
        count_auto-eq-count (caps_of c) c.now hour_ms
        ∙ ap (λ l. count (in_auto_window c.now hour_ms) (map cap_entry l)) read
        ∙ counted c.now es (before_later t c.now es order (History-before t es h)) in
      let later = fewer_later c.now now es (omega (arith, order', le)) in
      let grown = count-append (is_recent_automatic now) es (e ∷ []) in
      let one = count-le-length (is_recent_automatic now) (e ∷ []) in
      omega (arith, below, number, later, grown, one)
