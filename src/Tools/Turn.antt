-- ===== src/Tools/Turn.antt =====
-- `soulmirror_send_message` over the log of its session: the trigger that the sessions hand to the
-- gate is `triggerOf` of the log, so what the gate lets out has its cause in the log.
use soulnet.Prelude.{
  not, if◌then◌else◌, ℕ, ◌≢◌, String, Bool, true, false, Option, none, some, arith, ◌==◌,
}
use soulnet.Prelude.{List, ◌∷◌, ◌++◌, Bool-cases, eq_of_some-eq-some}
use soulnet.Prelude.{◌≡◌, refl, sym, ap, ◌∙◌, subst, inl, inr}
use soulnet.Prelude.Int.{ℤ}
use soulnet.Policy.{
  TurnTrigger, TriggerKind, send_gate, SendGateInput, SendDecision, allow, draft, AllowReason,
}
use soulnet.Policy.Gates.{send_gate-allow_iff}
use soulnet.Policy.Window.{HourlyWindow, count}
use soulnet.Tools.{SendCall, Outcome, sent, decide_send, carry_out, send_message}
use soulnet.Alter.{
  EventLike, UserMessage, RelayMeta, classify_user_message, trigger_of_class, trigger_in,
  trigger_of, starts_turn,
}
use soulnet.Alter.Trigger.{Woken, by_event, by_nothing, no_turn, NoStart, Silent, trigger_of_iff}

-- In the log's last turn, the first message that can be attributed is `m`.
pub data FirstMessage (events : List EventLike) (m : UserMessage) : Type 0 where
  first :
      (before passed after : List EventLike) (start e : EventLike)
      → events ≡ before ++ start ∷ (passed ++ e ∷ after)
      → starts_turn start ≡ true
      → NoStart (passed ++ e ∷ after)
      → Silent passed
      → e.type == "user/message" ≡ true
      → classify_user_message e.event_data ≡ m
      → FirstMessage events m

-- Why a message to the friend may go out, flagged or not.
pub data Cause (events : List EventLike) (target : String) : Bool → Type 0 where
  owner_spoke : FirstMessage events UserMessage.owner → Cause events target false
  friend_wrote :
      (r : RelayMeta)
      → r.fp ≡ target
      → FirstMessage events (UserMessage.inbound r)
      → Cause events target true

abbrev pub kind_of : Option TurnTrigger → TriggerKind
kind_of none = TriggerKind.unknown
kind_of (some t) = t.kind

pub class-owner :
    (m : UserMessage) (t : TurnTrigger)
    → trigger_of_class m ≡ some t
    → t.kind ≡ TriggerKind.owner
    → m ≡ UserMessage.owner
unfolding trigger_of_class
class-owner UserMessage.owner t h k = refl
class-owner (UserMessage.inbound r) t h k = absurd (ground (arith, ap kind_of h))
class-owner (UserMessage.inbound_auto r) t h k = absurd (ground (arith, ap kind_of h))
class-owner (UserMessage.group r gid) t h k = absurd (ground (arith, ap kind_of h))
class-owner (UserMessage.note r n) t h k = absurd (ground arith)
class-owner UserMessage.other t h k = absurd (ground arith)

class-inbound :
    (m : UserMessage) (t : TurnTrigger)
    → trigger_of_class m ≡ some t
    → t.kind ≡ TriggerKind.inbound
    → (r : RelayMeta) × (m ≡ UserMessage.inbound r) × (t.fp ≡ some r.fp)
unfolding trigger_of_class
class-inbound UserMessage.owner t h k = absurd (ground (arith, ap kind_of h))
class-inbound (UserMessage.inbound r) t h k =
    (r, refl, sym (ap (λ (x : TurnTrigger). x.fp) (eq_of_some-eq-some h)))
class-inbound (UserMessage.inbound_auto r) t h k = absurd (ground (arith, ap kind_of h))
class-inbound (UserMessage.group r gid) t h k = absurd (ground (arith, ap kind_of h))
class-inbound (UserMessage.note r n) t h k = absurd (ground arith)
class-inbound UserMessage.other t h k = absurd (ground arith)

-- A trigger of one of the two kinds is known, and a message of the log stands for it.
pub attributed :
    (events : List EventLike) (t : TurnTrigger)
    → Woken events t
    → t.kind ≢ TriggerKind.unknown
    → (m : UserMessage) × FirstMessage events m × (trigger_of_class m ≡ some t)
unfolding trigger_in
attributed events t (by_event before passed after start e split s h silent says) known =
    elim (Bool-cases (e.type == "user/message")) [
      | inl user ↦ (
        classify_user_message e.event_data,
        first before passed after start e split s h silent user refl,
        subst (λ o. o ≡ some t) (rw user refl) says,
      )
      | inr strange ↦ absurd (
          ground (
            arith,
            subst
                (λ (b : Bool).
                  (if b then trigger_of_class (classify_user_message e.event_data) else none)
                  ≡ some t)
                strange says,
          ))
    ]
attributed events t (by_nothing before turn start split s h silent u) known =
    absurd (known (ap (λ (x : TurnTrigger). x.kind) u))
attributed events t (no_turn h u) known = absurd (known (ap (λ (x : TurnTrigger). x.kind) u))

carry_out-allow :
    (c : SendCall) (w : HourlyWindow) (d : SendDecision) (auto : Bool)
    → c.has_face ≡ true
    → (carry_out c w d).1 ≡ sent auto
    → (r : AllowReason) × (d ≡ allow auto r)
unfolding carry_out
carry_out-allow c w (draft reason) auto face h = absurd (ground arith)
carry_out-allow c w (allow flag reason) auto face h =
    (reason, ap (λ b. allow b reason) (ground arith))

-- A message that goes out was let out by the gate.
abbrev gate_input : ℤ → SendCall → ℕ → SendGateInput
gate_input limit c n = record {
  trigger = c.trigger;
  target = c.target;
  tier = c.tier;
  auto_sent_in_window = n;
  limit = limit;
}

passed_guards :
    (by_agent no_friend : Bool) (w : HourlyWindow) (x : HourlyWindow × Outcome) (auto : Bool)
    → (if by_agent then (w, Outcome.refused) else (if no_friend then (w, Outcome.failed) else x)).1
      ≡ sent auto
    → x.1 ≡ sent auto
passed_guards true no_friend w x auto h = absurd (ground arith)
passed_guards false true w x auto h = absurd (ground arith)
passed_guards false false w x auto h = h

decide_send-live :
    (limit : ℤ) (w : HourlyWindow) (c : SendCall)
    → c.has_face ≡ true
    → c.has_session ≡ true
    → decide_send limit w c
      ≡ ((count w c.target c.now).0, send_gate (gate_input limit c (count w c.target c.now).1))
unfolding decide_send
decide_send-live limit w c face session = rw face (simp session refl)

send_message-allow :
    (limit : ℤ) (w : HourlyWindow) (c : SendCall) (auto : Bool)
    → c.has_face ≡ true
    → c.has_session ≡ true
    → (send_message limit w c).1 ≡ sent auto
    → (n : ℕ) × (r : AllowReason) × (send_gate (gate_input limit c n) ≡ allow auto r)
unfolding send_message
send_message-allow limit w c auto face session h =
    let n = (count w c.target c.now).1 in
    let decided = passed_guards _ (not c.is_friend) w _ auto h in
    let (r, allowed) = carry_out-allow c _ _ auto face decided in
    (
      n,
      r,
      ap (λ (i : HourlyWindow × SendDecision). i.1) (sym (decide_send-live limit w c face session))
          ∙ allowed,
    )

-- Where the sessions are there and hand the gate the trigger of the call's log, a message goes out
-- for one of two reasons: unflagged, when the first message of the log's last turn that can be
-- attributed is the owner's; and flagged automatic, when it is the mail of a friend, and that friend
-- is the one addressed.
pub send_message-Cause :
    (limit : ℤ) (w : HourlyWindow) (c : SendCall) (events : List EventLike) (auto : Bool)
    → c.has_face ≡ true
    → c.has_session ≡ true
    → c.trigger ≡ trigger_of events
    → (send_message limit w c).1 ≡ sent auto
    → Cause events c.target auto
send_message-Cause limit w c events auto face session same h =
    let (n, r, allowed) = send_message-allow limit w c auto face session h in
    let woken = (trigger_of_iff events c.trigger).0 (sym same) in
    elim ((send_gate-allow_iff _ auto r).0 allowed) [
      | inl (owner, unflagged, _) ↦
          let (m, found, class) = attributed events c.trigger woken (λ u. ground arith) in
          subst (Cause events c.target) (sym unflagged)
            (owner_spoke (subst (FirstMessage events) (class-owner m c.trigger class owner) found))
      | inr (inbound, answers, tier, below, flagged, _) ↦
          let (m, found, class) = attributed events c.trigger woken (λ u. ground arith) in
          let (r, is_mail, fp) = class-inbound m c.trigger class inbound in
          subst (Cause events c.target) (sym flagged) (
            friend_wrote r (ground (arith, fp, answers))
              (subst (FirstMessage events) is_mail found))
    ]
