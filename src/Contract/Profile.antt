-- ===== src/Contract/Profile.antt =====
-- `normalizeGroupProfile` of group-contract.ts: what holds of the view whatever the relay sent.
use Prim.Native.Nat.{◌*◌, ◌/◌, ◌^◌}
use native.Mathlib.Nat.{div-add-mod, mod-lt, mul_comm, one-le-pow, add-mul}
use soulnet.Prelude.{
  ℕ, zero, suc, ◌+◌, ◌≤◌, ◌<◌, String, Bool, true, false, Option, none, some, is_some, arith, ◌==◌,
  ltb, if◌then◌else◌,
}
use soulnet.Prelude.{Bool-cases, inl, inr, ◌↔◌, ◌≡◌, refl, sym, ap, subst}
use soulnet.Prelude.Int.{ℤ, pos, negsuc, is_positive}
use soulnet.Json.{Json, at_key, text_of}
use soulnet.Contract.{
  normalize_group_profile, GroupProfileView, JoinPolicy, Number, WireProfile, floor_or,
  default_group_auto_per_hour, default_group_agent_rounds, wire_join, paid_join_from_rules,
}

-- `n` is `m / 2 ^ e`, rounded down.
abbrev Rounds : ℕ → ℕ → ℕ → Type 0
Rounds n m e = (n * 2 ^ e ≤ m) × (m < (n + 1) * 2 ^ e)

-- What a cap is, by the number on the wire.
pub data IsCap (fallback : ℤ) : Option Number → ℤ → Type 0 where
  absent : IsCap fallback none fallback
  not_positive : (x : Number) → is_positive x.numerator ≡ false → IsCap fallback (some x) fallback
  rounded :
      (x : Number) (m n : ℕ)
      → x.numerator ≡ pos m
      → 0 < m
      → Rounds n m x.exponent
      → IsCap fallback (some x) (pos n)

-- What the gates rely on.
pub record IsInForm (p : WireProfile) (v : GroupProfileView) : Type 0 where
  pub cap_hour : IsCap default_group_auto_per_hour p.auto_per_hour v.auto_per_hour
  pub cap_rounds : IsCap default_group_agent_rounds p.agent_rounds v.agent_rounds
  pub has_room : v.room == "" ≡ false
  pub marked_paid : (v.join ≡ JoinPolicy.paid) ↔ (is_some v.paid_join ≡ true)
  pub from_rules : v.paid_join ≡ paid_join_from_rules v.rules

floor-Rounds : (m d : ℕ) → 0 < d → ((m / d) * d ≤ m) × (m < (m / d + 1) * d)
floor-Rounds m d h =
    let whole = div-add-mod m d in
    let part = mod-lt m h in
    let turn = mul_comm d (m / d) in
    (omega (arith, turn, whole), omega (arith, turn, whole, part, add-mul (m / d) 1 d))

floor_of-IsCap :
    (x : Number) (fallback z : ℤ)
    → x.numerator ≡ z
    → IsCap fallback (some x) (floor_or (some x) fallback)
unfolding floor_or
floor_of-IsCap x fallback (negsuc m) h =
    let e : floor_or (some x) fallback ≡ fallback = rw (floor_or, h) refl in
    subst (IsCap fallback (some x)) (sym e) (not_positive x (ap is_positive h))
floor_of-IsCap x fallback (pos zero) h =
    let e : floor_or (some x) fallback ≡ fallback = rw (floor_or, h) refl in
    subst (IsCap fallback (some x)) (sym e) (not_positive x (ap is_positive h))
floor_of-IsCap x fallback (pos (suc m)) h =
    let e : floor_or (some x) fallback ≡ pos (suc m / 2 ^ x.exponent) =
      let more : ltb 0 (suc m) ≡ true = ground arith in rw (floor_or, h, more) refl in
    subst (IsCap fallback (some x)) (sym e) (
      rounded x (suc m) _ h (omega arith)
        (floor-Rounds (suc m) (2 ^ x.exponent) (one-le-pow x.exponent 2 (omega arith))))

floor_or-IsCap : (v : Option Number) (fallback : ℤ) → IsCap fallback v (floor_or v fallback)
unfolding floor_or
floor_or-IsCap none fallback = absent
floor_or-IsCap (some x) fallback = floor_of-IsCap x fallback x.numerator refl

room_or_chat : (room : String) → (if room == "" then "chat" else room) == "" ≡ false
room_or_chat room = elim (Bool-cases (room == "")) [
  | inl blank ↦ rw blank
  | inr full ↦ rw (full, full)
]

-- A join policy of the wire is never `paid`.
paid_iff :
    (there : Bool) (v : Option Json)
    → ((if there then JoinPolicy.paid else wire_join v) ≡ JoinPolicy.paid) ↔ (there ≡ true)
paid_iff true v = (λ _. refl, λ _. refl)
paid_iff false v = ground arith

-- Whatever a relay sends as the profile of a group, or nothing, the view has a room that is not
-- empty, and the policy `paid` exactly when its rules carry a mark that can be read, with the price
-- and the address of that mark. Each of its two caps is the default when the wire has no positive
-- finite number for it, and else that number rounded down: zero for a number below 1, never negative.
pub normalize_group_profile-IsInForm : (p : WireProfile) → IsInForm p (normalize_group_profile p)
unfolding normalize_group_profile
normalize_group_profile-IsInForm p = record {
  cap_hour = floor_or-IsCap p.auto_per_hour default_group_auto_per_hour;
  cap_rounds = floor_or-IsCap p.agent_rounds default_group_agent_rounds;
  has_room = room_or_chat (text_of (at_key "room" p.keys));
  marked_paid =
      paid_iff (is_some (paid_join_from_rules (text_of (at_key "rules" p.keys))))
        (at_key "join" p.keys);
  from_rules = refl;
}
