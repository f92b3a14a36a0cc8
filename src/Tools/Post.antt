-- ===== src/Tools/Post.antt =====
-- `soulmirror_send_group_message` over the log of its session, the profile of the group and its
-- archive: what has to stand there for a post to go out.
use soulnet.Prelude.{String, Bool, true, false, not, ◌&&◌, some, arith, ◌==◌, if◌then◌else◌}
use soulnet.Prelude.{List, eq_of_some-eq-some, equals, equals_iff}
use soulnet.Prelude.{◌≡◌, refl, sym, ap, ◌∙◌, subst, inl, inr}
use soulnet.Prelude.Int.{lt_count}
use soulnet.Policy.{TurnTrigger, TriggerKind, AllowReason}
use soulnet.Policy.Group.{GroupSendDecision, allow, draft, refuse}
use soulnet.Policy.Gates.{group_send_gate-allow_iff}
use soulnet.Policy.Window.{hour_ms}
use soulnet.Policy.Caps.{count_auto_in_window}
use soulnet.Policy.Mentions.{Text}
use soulnet.Contract.{normalize_group_profile}
use soulnet.Alter.{EventLike, UserMessage, RelayMeta, trigger_of_class, trigger_of}
use soulnet.Alter.Trigger.{Woken, trigger_of_iff}
use soulnet.Tools.Turn.{FirstMessage, class-owner, kind_of, attributed}
use soulnet.Tools.Group.{
  GroupCall, posted, caps_of, trigger_here, is_group, is_own, gate_input, carry_out_post,
  send_group_message,
}

-- Why a post to the group may go out, flagged or not.
pub data PostCause (events : List EventLike) (gid own_fp : String) : Bool → Type 0 where
  owner_spoke : FirstMessage events UserMessage.owner → PostCause events gid own_fp false
  owner_posted :
      (r : RelayMeta)
      → r.fp ≡ own_fp
      → FirstMessage events (UserMessage.group r gid)
      → PostCause events gid own_fp false
  member_posted :
      (r : RelayMeta)
      → FirstMessage events (UserMessage.group r gid)
      → PostCause events gid own_fp true

-- The profile lets agents speak, and for a flagged post the entries that were read of the archive
-- stay below its hourly cap.
pub record IsCapped (c : GroupCall) (auto : Bool) : Type 0 where
  pub speaks : (normalize_group_profile c.profile).speak_agents ≡ true
  pub below :
      auto ≡ true
      → lt_count
          (count_auto_in_window (caps_of c) c.now hour_ms)
          (normalize_group_profile c.profile).auto_per_hour
        ≡ true

class-group :
    (m : UserMessage) (t : TurnTrigger)
    → trigger_of_class m ≡ some t
    → t.kind ≡ TriggerKind.group
    → (r : RelayMeta) × ((gid : String) × (m ≡ UserMessage.group r gid)
        × (t.fp ≡ some r.fp)
        × (t.gid ≡ some gid))
unfolding trigger_of_class
class-group UserMessage.owner t h k = absurd (ground (arith, ap kind_of h))
class-group (UserMessage.inbound r) t h k = absurd (ground (arith, ap kind_of h))
class-group (UserMessage.inbound_auto r) t h k = absurd (ground (arith, ap kind_of h))
class-group (UserMessage.group r gid) t h k =
    let e = eq_of_some-eq-some h in
    (
      r,
      (gid, refl, sym (ap (λ (x : TurnTrigger). x.fp) e), sym (ap (λ (x : TurnTrigger). x.gid) e)),
    )
class-group (UserMessage.note r n) t h k = absurd (ground (arith, h))
class-group UserMessage.other t h k = absurd (ground (arith, h))

carry_out_post-allow :
    (c : GroupCall) (d : GroupSendDecision) (auto : Bool)
    → c.has_face ≡ true
    → carry_out_post c d ≡ posted auto
    → (r : AllowReason) × (d ≡ allow auto r)
carry_out_post-allow c (refuse reason) auto face h = absurd (ground (arith, h))
carry_out_post-allow c (draft reason) auto face h = absurd (ground (arith, h, face))
carry_out_post-allow c (allow flag reason) auto face h =
    (reason, ap (λ b. allow b reason) (ground (arith, h)))

is_own-true : (t : TurnTrigger) (own_fp : String) → is_own t own_fp ≡ true → t.fp ≡ some own_fp
is_own-true t own_fp h =
    (equals_iff t.fp own_fp).0
      (and_last (is_group t.kind) (not (own_fp == "")) (equals t.fp own_fp) h)
  where
    and_last : (a b c : Bool) → (a && b && c) ≡ true → c ≡ true
    and_last a b c e = ground (arith, e)

module _ (to_lower_case : Text → Text) (c : GroupCall) (events : List EventLike)
    (face : c.has_face ≡ true) (session : c.has_session ≡ true)
    (same : c.trigger ≡ trigger_of events) where
  here : trigger_here c ≡ c.trigger
  here = rw (face, session) refl

  own : (if c.has_face then c.own_fp else "") ≡ c.own_fp
  own = rw face refl

  woken : Woken events (trigger_here c)
  woken = (trigger_of_iff events (trigger_here c)).0 (sym same ∙ sym here)

  by_owner : (trigger_here c).kind ≡ TriggerKind.owner → PostCause events c.gid c.own_fp false
  by_owner kind =
      let (m, found, class) =
        attributed events (trigger_here c) woken (λ u. ground (arith, u, kind)) in
      owner_spoke (subst (FirstMessage events) (class-owner m (trigger_here c) class kind) found)

  -- the message of the group that woke the turn
  by_group :
      (trigger_here c).kind ≡ TriggerKind.group
      → (trigger_here c).gid ≡ some c.gid
      → (r : RelayMeta) × (((trigger_here c).fp ≡ some r.fp)
          × FirstMessage events (UserMessage.group r c.gid))
  by_group kind gid =
      let (m, found, class) =
        attributed events (trigger_here c) woken (λ u. ground (arith, u, kind)) in
      let (r, (g, is_group, fp, named)) = class-group m (trigger_here c) class kind in
      let e : g ≡ c.gid = eq_of_some-eq-some (sym named ∙ gid) in
      (
        r,
        (
          fp,
          subst (λ x. FirstMessage events (UserMessage.group r x)) e
              (subst (FirstMessage events) is_group found),
        ),
      )

  -- Where the sessions are there and hand the gate the trigger of the call's log, a post to a group
  -- goes out only if its profile lets agents speak, and for one of three reasons, by the first message
  -- of the log's last turn that can be attributed: unflagged, when that is the owner's, or a post of
  -- the own fingerprint in that group; and flagged automatic, when it is a message of that group, and
  -- then the entries that the network answers of the archive for a limit of 200 hold fewer automatic
  -- posts of the last hour than the profile's cap. An archive that cannot be reached counts as empty.
  pub send_group_message-PostCause :
      (auto : Bool)
      → send_group_message to_lower_case c ≡ posted auto
      → PostCause events c.gid c.own_fp auto × IsCapped c auto
  unfolding send_group_message
  send_group_message-PostCause auto h =
      let (r, allowed) = carry_out_post-allow c _ auto face h in
      elim ((group_send_gate-allow_iff (gate_input to_lower_case c) auto r).0 allowed) [
        | inl (speaks, unflagged, _, inl owner) ↦ (
          subst (PostCause events c.gid c.own_fp) (sym unflagged) (by_owner owner),
          record {
            speaks = speaks;
            below = λ flagged. absurd (ground (arith, flagged, unflagged));
          },
        )
        | inl (speaks, unflagged, _, inr (kind, gid, mine)) ↦
            let (r, (fp, found)) = by_group kind gid in
            let own_post =
              is_own-true (trigger_here c) (if c.has_face then c.own_fp else "")
                (eq_of_some-eq-some mine) in
            (
              subst (PostCause events c.gid c.own_fp) (sym unflagged)
                  (owner_posted r (eq_of_some-eq-some (sym fp ∙ own_post) ∙ own) found),
              record {
                speaks = speaks;
                below = λ flagged. absurd (ground (arith, flagged, unflagged));
              },
            )
        | inr (speaks, flagged, _, kind, gid, _, _, below, _) ↦
            let (r, (_, found)) = by_group kind gid in
            (
              subst (PostCause events c.gid c.own_fp) (sym flagged) (member_posted r found),
              record { speaks = speaks; below = λ _. below },
            )
      ]
