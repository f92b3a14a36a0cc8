-- ===== src/Alter/Trigger.antt =====
-- `triggerOf` of alter-state.ts against a description of the log: the last turn in it, and the first
-- message there that says who woke it.
use soulnet.Prelude.{true, false, ◌↔◌, none, some, ◌≡◌, refl, sym, ap, ◌∙◌}
use soulnet.Prelude.{List, [], ◌∷◌, ◌++◌, All, reverse, append_assoc}
use soulnet.Prelude.{Bool-cases, Option-cases, inl, inr, subst}
use soulnet.Policy.{TurnTrigger, unknown_turn_trigger}
use soulnet.Alter.{EventLike, starts_turn, trigger_in, first_trigger, scan_back, trigger_of}
use mathlib.Core.List.{reverse_aux, reverse-append, reverse_aux-eq, reverse-reverse}

-- No event of the list starts a turn.
abbrev pub NoStart : List EventLike → Type 0
NoStart es = All (λ e. starts_turn e ≡ false) es

-- No event of the list says who woke the turn.
abbrev pub Silent : List EventLike → Type 0
Silent es = All (λ e. trigger_in e ≡ none) es

-- What the log says about the trigger `t` of the current turn.
pub data Woken (events : List EventLike) (t : TurnTrigger) : Type 0 where
  by_event :
      (before passed after : List EventLike) (start e : EventLike)
      → events ≡ before ++ start ∷ (passed ++ e ∷ after)
      → starts_turn start ≡ true
      → NoStart (passed ++ e ∷ after)
      → Silent passed
      → trigger_in e ≡ some t
      → Woken events t
  by_nothing :
      (before turn : List EventLike) (start : EventLike)
      → events ≡ before ++ start ∷ turn
      → starts_turn start ≡ true
      → NoStart turn
      → Silent turn
      → t ≡ unknown_turn_trigger
      → Woken events t
  no_turn : NoStart events → t ≡ unknown_turn_trigger → Woken events t

-- Where the first trigger of a list stands.
pub data First (es : List EventLike) (t : TurnTrigger) : Type 0 where
  found :
      (passed after : List EventLike) (e : EventLike)
      → es ≡ passed ++ e ∷ after
      → Silent passed
      → trigger_in e ≡ some t
      → First es t
  silent : Silent es → t ≡ unknown_turn_trigger → First es t

first_trigger-First : (es : List EventLike) → First es (first_trigger es)
unfolding first_trigger
first_trigger-First [] = silent tt refl
first_trigger-First (e ∷ es) = elim (Option-cases (trigger_in e)) [
  | inr (t, says) ↦ rw (first_trigger, says) (found [] es e refl tt says)
  | inl quiet ↦
      rw (first_trigger, quiet)
        (elim (first_trigger-First es) [
          | found passed after d split sil says ↦
              found (e ∷ passed) after d (ap (◌∷◌ e) split) (quiet, sil) says
          | silent sil none_found ↦ silent (quiet, sil) none_found
        ])
]

first_trigger-found :
    (passed after : List EventLike) (e : EventLike) (t : TurnTrigger)
    → Silent passed
    → trigger_in e ≡ some t
    → first_trigger (passed ++ e ∷ after) ≡ t
unfolding first_trigger
first_trigger-found [] after e t sil says = rw (first_trigger, says)
first_trigger-found (d ∷ passed) after e t sil says =
    rw (first_trigger, sil.0) (first_trigger-found passed after e t sil.1 says)

first_trigger-Silent : (es : List EventLike) → Silent es → first_trigger es ≡ unknown_turn_trigger
unfolding first_trigger
first_trigger-Silent [] sil = refl
first_trigger-Silent (e ∷ es) sil = rw (first_trigger, sil.0) (first_trigger-Silent es sil.1)

-- The scan from the end stops at the last start.
scan_back-start :
    (behind turn before : List EventLike) (start : EventLike)
    → starts_turn start ≡ true
    → NoStart turn
    → scan_back behind (turn ++ start ∷ before) ≡ first_trigger (reverse_aux turn behind)
unfolding scan_back
scan_back-start behind [] before start s h = rw s
scan_back-start behind (e ∷ turn) before start s h =
    rw h.0 (scan_back-start (e ∷ behind) turn before start s h.1)

scan_back-none :
    (behind es : List EventLike) → NoStart es → scan_back behind es ≡ unknown_turn_trigger
unfolding scan_back
scan_back-none behind [] h = refl
scan_back-none behind (e ∷ es) h = rw h.0 (scan_back-none (e ∷ behind) es h.1)

All-reverse_aux : (xs ys : List EventLike) → NoStart xs → NoStart ys → NoStart (reverse_aux xs ys)
All-reverse_aux [] ys h k = k
All-reverse_aux (x ∷ xs) ys h k = All-reverse_aux xs (x ∷ ys) h.1 (h.0, k)

trigger_of-start :
    (before turn : List EventLike) (start : EventLike)
    → starts_turn start ≡ true
    → NoStart turn
    → trigger_of (before ++ start ∷ turn) ≡ first_trigger turn
unfolding trigger_of
trigger_of-start before turn start s h =
    let split : reverse (before ++ start ∷ turn) ≡ reverse turn ++ start ∷ reverse before =
      reverse-append before (start ∷ turn)
      ∙ rw (reverse_aux-eq turn (start ∷ []))
          (append_assoc (reverse turn) (start ∷ []) (reverse before)) in
    rw split (
      scan_back-start [] (reverse turn) (reverse before) start s (All-reverse_aux turn [] h tt)
      ∙ ap first_trigger (reverse-reverse turn))

trigger_of-none : (es : List EventLike) → NoStart es → trigger_of es ≡ unknown_turn_trigger
unfolding trigger_of
trigger_of-none es h = scan_back-none [] (reverse es) (All-reverse_aux es [] h tt)

-- The last start of a turn in a log.
data LastTurn (es : List EventLike) : Type 0 where
  last :
      (before turn : List EventLike) (start : EventLike)
      → es ≡ before ++ start ∷ turn
      → starts_turn start ≡ true
      → NoStart turn
      → LastTurn es
  never : NoStart es → LastTurn es

last_turn : (es : List EventLike) → LastTurn es
last_turn [] = never tt
last_turn (e ∷ es) = elim (last_turn es) [
  | last before turn start split s h ↦ last (e ∷ before) turn start (ap (◌∷◌ e) split) s h
  | never h ↦ elim (Bool-cases (starts_turn e)) [
    | inl s ↦ last [] es e refl s h
    | inr s ↦ never (s, h)
  ]
]

woken : (es : List EventLike) → Woken es (trigger_of es)
woken es = elim (last_turn es) [
  | never h ↦ no_turn h (trigger_of-none es h)
  | last before turn start split s h ↦
      let e : trigger_of es ≡ first_trigger turn =
        ap trigger_of split ∙ trigger_of-start before turn start s h in
      rw e (elim (first_trigger-First turn) [
        | found passed after d parts sil says ↦
            by_event before passed after start d (split ∙ ap (λ l. before ++ start ∷ l) parts) s
              (subst NoStart parts h) sil says
        | silent sil none_found ↦ by_nothing before turn start split s h sil none_found
      ])
]

-- `triggerOf` answers `t` exactly when the log says so: the first message of the last turn that can
-- be attributed stands for `t`, or there is no turn or no such message and `t` is unknown.
pub trigger_of_iff : (es : List EventLike) (t : TurnTrigger) → (trigger_of es ≡ t) ↔ Woken es t
trigger_of_iff es t = (λ e. subst (Woken es) e (woken es), answers)
  where
    answers : Woken es t → trigger_of es ≡ t
    answers (by_event before passed after start e split s h sil says) =
        ap trigger_of split
        ∙ trigger_of-start before (passed ++ e ∷ after) start s h
        ∙ first_trigger-found passed after e t sil says
    answers (by_nothing before turn start split s h sil u) =
        ap trigger_of split
        ∙ trigger_of-start before turn start s h
        ∙ first_trigger-Silent turn sil
        ∙ sym u
    answers (no_turn h u) = trigger_of-none es h ∙ sym u
