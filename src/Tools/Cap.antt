-- ===== src/Tools/Cap.antt =====
-- The hourly cap on automatic messages, over any calls of `soulmirror_send_message`.
use soulnet.Prelude.{ℕ, ◌≤◌, ◌<◌, String, Bool, true, false, not, ◌&&◌, ◌++◌, arith, refl, ◌≡◌, sym}
use soulnet.Prelude.{List, [], ◌∷◌, ◌⊎◌, inl, inr, ◌==◌, if◌then◌else◌, Bool-cases, filter, length}
use soulnet.Prelude.{subst, append-nil, append_assoc, fun_ext, filter-append, length-append, eq_iff}
use soulnet.Prelude.Int.{ℤ, pos, negsuc, lt_count}
use soulnet.Policy.{
  SendDecision, allow, draft, SendGateInput, unknown_turn_trigger, send_gate, AllowReason,
}
use soulnet.Policy.Gates.{send_gate-allow_iff}
use soulnet.Prelude.Dict.{lookup}
use soulnet.Policy.Window.{HourlyWindow, count, record_hit, is_recent}
use soulnet.Policy.Window.Ledger.{
  Agrees, counted-Agrees, record_hit-Agrees, Agrees-later, count-Agrees, empty,
}
use soulnet.Tools.{is_owner, SendCall, Outcome, sent, decide_send, carry_out, send_message}

-- The most automatic messages that the setting allows in an hour: 0 for a setting below 0.
abbrev pub cap_of : ℤ → ℕ
cap_of (pos n) = n
cap_of (negsuc n) = 0

abbrev pub is_auto : Outcome → Bool
is_auto (sent auto) = auto
is_auto _ = false

-- The calls come in the order of the clock.
abbrev pub Ordered : ℕ → List SendCall → Type 0
Ordered t [] = Unit
Ordered t (c ∷ cs) = (t ≤ c.now) × ((c.now ≤ c.sent_at) × Ordered c.sent_at cs)

abbrev pub last_now : ℕ → List SendCall → ℕ
last_now t [] = t
last_now t (c ∷ cs) = last_now c.sent_at cs

-- the time of a call that sent an automatic message to the friend
abbrev pub logged : Outcome → SendCall → String → List ℕ
logged out c fp = if is_auto out && c.target == fp then c.sent_at ∷ [] else []

-- The times at which the calls sent automatic messages to a friend.
unfoldable pub auto_sent : ℤ → HourlyWindow → List SendCall → String → List ℕ
auto_sent limit w [] fp = []
auto_sent limit w (c ∷ cs) fp =
    let r = send_message limit w c in logged r.1 c fp ++ auto_sent limit r.0 cs fp

lt_count-cap : (n : ℕ) (limit : ℤ) → lt_count n limit ≡ true → n < cap_of limit
lt_count-cap n (pos m) h = ground arith
lt_count-cap n (negsuc m) h = absurd (ground arith)

gate-lt :
    (input : SendGateInput) (r : AllowReason)
    → send_gate input ≡ allow true r
    → input.auto_sent_in_window < cap_of input.limit
gate-lt input r e = elim ((send_gate-allow_iff input true r).0 e) [
  | inl (_, bad, _) ↦ absurd (ground arith)
  | inr (_, _, _, lt, _, _) ↦ lt_count-cap input.auto_sent_in_window input.limit lt
]

-- With the sessions there, a decision is carried out in one of two ways.
carry_out-cases :
    (c : SendCall) (w : HourlyWindow) (d : SendDecision)
    → c.has_face ≡ true
    → ((is_auto (carry_out c w d).1 ≡ false) × ((carry_out c w d).0 ≡ w))
      ⊎ ((is_auto (carry_out c w d).1 ≡ true)
          × ((carry_out c w d).0 ≡ (record_hit w c.target c.sent_at).0)
          × ((r : AllowReason) × (d ≡ allow true r)))
unfolding carry_out
carry_out-cases c w (draft reason) h = rw h (inl (refl, refl))
carry_out-cases c w (allow false reason) h = elim (Bool-cases c.delivered) [
  | inl t ↦ rw (t, h) (inl (refl, refl))
  | inr f ↦ rw f (inl (refl, refl))
]
carry_out-cases c w (allow true reason) h = elim (Bool-cases c.delivered) [
  | inl t ↦ rw (t, h) (inr (refl, refl, (reason, refl)))
  | inr f ↦ rw f (inl (refl, refl))
]

-- A call leaves the window alone, or counts in it, or counts below the cap and records.
send_message-cases :
    (limit : ℤ) (w : HourlyWindow) (c : SendCall)
    → ((is_auto (send_message limit w c).1 ≡ false)
        × (((send_message limit w c).0 ≡ w)
            ⊎ ((send_message limit w c).0 ≡ (count w c.target c.now).0)))
      ⊎ ((is_auto (send_message limit w c).1 ≡ true)
          × ((send_message limit w c).0
              ≡ (record_hit (count w c.target c.now).0 c.target c.sent_at).0)
          × ((count w c.target c.now).1 < cap_of limit))
unfolding send_message decide_send send_gate
send_message-cases limit w c =
    elim (Bool-cases (c.by_agent && c.has_face && c.has_session && not (is_owner c.trigger.kind))) [
      | inl t ↦ rw t (inl (refl, inl refl))
      | inr f ↦ elim (Bool-cases c.is_friend) [
        | inr stranger ↦ rw (f, stranger) (inl (refl, inl refl))
        | inl known ↦ elim (Bool-cases c.has_face) [
          | inl face ↦
              let input : SendGateInput = record {
                trigger = if c.has_session then c.trigger else unknown_turn_trigger;
                target = c.target;
                tier = c.tier;
                auto_sent_in_window = (count w c.target c.now).1;
                limit = limit;
              } in
              rw f (
                simp (known, face)
                  (elim (carry_out-cases c (count w c.target c.now).0 (send_gate input) face) [
                    | inl (no_auto, same) ↦ inl (no_auto, inr same)
                    | inr (auto, recorded, (r, e)) ↦ inr (auto, recorded, gate-lt input r e)
                  ]))
          | inr alone ↦ elim (Bool-cases c.approved) [
            | inl t ↦ elim (Bool-cases c.delivered) [
              | inl d ↦ rw f (simp (known, alone, t, d) (inl (refl, inl refl)))
              | inr d ↦ rw f (simp (known, alone, t, d) (inl (refl, inl refl)))
            ]
            | inr t ↦ rw f (simp (known, alone, t) (inl (refl, inl refl)))
          ]
        ]
      ]
    ]

-- From time t on, the recent hits in the ledger are at most as many as the cap.
Capped : ℤ → ℕ → ℕ → (String → List ℕ) → Type 0
Capped limit window t ledger =
    (fp : String) (now : ℕ)
    → t ≤ now
    → length (filter (is_recent window now) (ledger fp)) ≤ cap_of limit

count_later :
    (window t now : ℕ) (xs : List ℕ)
    → t ≤ now
    → length (filter (is_recent window now) xs) ≤ length (filter (is_recent window t) xs)
count_later window t now [] h = omega arith
count_later window t now (x ∷ xs) h = ground (arith, count_later window t now xs h)

module _ (limit : ℤ) (window t : ℕ) (w : HourlyWindow) (ledger : String → List ℕ) (c : SendCall)
    (h : t ≤ c.now) (h' : c.now ≤ c.sent_at) (agrees : Agrees window t w ledger)
    (capped : Capped limit window t ledger) where
  abbrev grown : String → List ℕ
  grown fp = ledger fp ++ logged (send_message limit w c).1 c fp

  same_ledger : is_auto (send_message limit w c).1 ≡ false → ledger ≡ grown
  same_ledger e = fun_ext (λ fp. rw e (sym (append-nil (ledger fp))))

  step-Agrees : Agrees window c.sent_at (send_message limit w c).0 grown
  step-Agrees = elim (send_message-cases limit w c) [
    | inl (no_auto, inl same) ↦
        subst (Agrees window c.sent_at _) (same_ledger no_auto)
          (rw same (Agrees-later w (omega arith) agrees))
    | inl (no_auto, inr counted) ↦ subst (Agrees window c.sent_at _) (same_ledger no_auto) (
        rw counted
          (Agrees-later (count w c.target c.now).0 h' (counted-Agrees w c.target h agrees)))
    | inr (auto, recorded, below) ↦
        let longer : (λ fp. ledger fp ++ (if c.target == fp then c.sent_at ∷ [] else [])) ≡ grown =
          fun_ext (λ fp. rw auto) in
        subst (Agrees window c.sent_at _) longer (
          rw recorded (
            record_hit-Agrees (count w c.target c.now).0 c.target c.sent_at h'
              (counted-Agrees w c.target h agrees)))
  ]

  step-Capped : Capped limit window c.sent_at grown
  unfolding Capped
  step-Capped fp now le = elim (send_message-cases limit w c) [
    | inl (no_auto, _) ↦ rw (no_auto, append-nil) (capped fp now (omega arith))
    | inr (auto, recorded, below) ↦ elim (Bool-cases (c.target == fp)) [
      | inl same ↦
          let e : c.target ≡ fp = (eq_iff c.target fp).0 same in
          let seen : length (filter (is_recent window c.now) (ledger c.target)) < cap_of limit =
            subst (λ n. n < cap_of limit) (count-Agrees w c.target h agrees) below in
          let seen_fp : length (filter (is_recent window c.now) (ledger fp)) < cap_of limit =
            subst (λ j. length (filter (is_recent window c.now) (ledger j)) < cap_of limit) e
              seen in
          rw (auto, same, filter-append, length-append)
            (ground (arith, seen_fp, count_later window c.now now (ledger fp) (omega arith)))
      | inr other ↦ rw (auto, other, append-nil) (capped fp now (omega arith))
    ]
  ]

auto_sent-Capped :
    (limit : ℤ) (window t : ℕ) (w : HourlyWindow) (ledger : String → List ℕ) (cs : List SendCall)
    → Ordered t cs
    → Agrees window t w ledger
    → Capped limit window t ledger
    → Capped limit window (last_now t cs) (λ fp. ledger fp ++ auto_sent limit w cs fp)
unfolding Capped auto_sent
auto_sent-Capped limit window t w ledger [] h agrees capped fp now le =
    rw append-nil (capped fp now le)
auto_sent-Capped limit window t w ledger (c ∷ cs) h agrees capped fp now le = rw (← append_assoc) (
    auto_sent-Capped limit window c.sent_at (send_message limit w c).0
      (grown limit window t w ledger c h.0 h.1.0 agrees capped) cs h.1.1
      (step-Agrees limit window t w ledger c h.0 h.1.0 agrees capped)
      (step-Capped limit window t w ledger c h.0 h.1.0 agrees capped) fp now le)

-- No friend ever gets more automatic messages within the window than the setting allows. Make any
-- calls of `soulmirror_send_message` in the order of the clock, one after the other, with the window
-- empty at first: at any later time, the automatic messages to the friend that are less than the
-- window's length old are at most as many as the limit, and none for a limit of 0 or below.
pub auto_sent-le :
    (limit : ℤ) (window : ℕ) (cs : List SendCall) (fp : String) (now : ℕ)
    → Ordered 0 cs
    → last_now 0 cs ≤ now
    → length (filter (is_recent window now) (auto_sent limit (empty window) cs fp)) ≤ cap_of limit
unfolding Capped lookup
auto_sent-le limit window cs fp now h le =
    auto_sent-Capped limit window 0 (empty window) (λ _. []) cs h
      (record { same_window = refl; same_recent = λ _ _ _. refl }) (λ _ _ _. omega arith) fp now le
