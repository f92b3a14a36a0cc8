-- ===== src/Agents/Names.antt =====
-- The registry of agents over any calls: valid names, unrepeated whatever their case, and what a
-- write makes of the reads.
use soulnet.Prelude.{String, Bool, true, false, Option, none, some, arith}
use soulnet.Prelude.{
  List, [], ◌∷◌, ◌++◌, ◌==◌, if◌then◌else◌, filter, any, map, is_some, All, All-append,
}
use soulnet.Prelude.{Bool-cases, inl, inr, eq_iff, eq_of_some-eq-some}
use soulnet.Prelude.{◌≡◌, refl, sym, ap, ◌∙◌, subst}
use soulnet.Prelude.Text.{trim}
use soulnet.Json.{Json, text_of, at_key}
use soulnet.Agents.{
  SeatAgent, agent_name_error, normalize_agent, key_of, replace_first, has_key, stored,
}

-- No key stands twice.
abbrev pub Unrepeated : List String → Type 0
Unrepeated [] = Unit
Unrepeated (k ∷ ks) = (any (λ j. j == k) ks ≡ false) × Unrepeated ks

any-append_one :
    (p : String → Bool) (ks : List String) (k : String)
    → any p ks ≡ false
    → p k ≡ false
    → any p (ks ++ k ∷ []) ≡ false
any-append_one p [] k h e = rw e
any-append_one p (j ∷ ks) k h e = ground (arith, h, any-append_one p ks k (ground (arith, h)) e)

Unrepeated-append :
    (ks : List String) (k : String)
    → Unrepeated ks
    → any (λ j. j == k) ks ≡ false
    → Unrepeated (ks ++ k ∷ [])
Unrepeated-append [] k u h = (refl, tt)
Unrepeated-append (j ∷ ks) k u h = (
  any-append_one (λ i. i == j) ks k u.0 (ground (arith, h, eq_iff k j, eq_iff j k)),
  Unrepeated-append ks k u.1 (ground (arith, h)),
)

guarded :
    (b : Bool) (new a : SeatAgent)
    → (if b then none else some new) ≡ some a
    → (b ≡ false) × (new ≡ a)
guarded true new a h = absurd (ground (arith, h))
guarded false new a h = (refl, eq_of_some-eq-some h)

pub no_error : (o : Option String) → is_some o ≡ false → o ≡ none
no_error none h = refl
no_error (some e) h = absurd (ground (arith, h))

module _ (to_lower_case : String → String) where
  abbrev pub keys : List SeatAgent → List String
  keys agents = map (key_of to_lower_case) agents

  abbrev pub IsValid : SeatAgent → Type 0
  IsValid a = agent_name_error to_lower_case a.name ≡ none

  -- What holds of the agents in memory.
  pub record AreNamed (agents : List SeatAgent) : Type 0 where
    pub valid : All IsValid agents
    pub unique : Unrepeated (keys agents)

  pub any-keys :
      (k : String) (agents : List SeatAgent)
      → any (λ j. j == k) (keys agents) ≡ any (has_key to_lower_case k) agents
  any-keys k [] = refl
  any-keys k (a ∷ agents) = rw (any-keys k agents)

  pub keys-append : (xs ys : List SeatAgent) → keys (xs ++ ys) ≡ keys xs ++ keys ys
  keys-append [] ys = refl
  keys-append (x ∷ xs) ys = ap (◌∷◌ (key_of to_lower_case x)) (keys-append xs ys)

  pub normalize_agent-IsValid :
      (v : Json) (a : SeatAgent) → normalize_agent to_lower_case v ≡ some a → IsValid a
  unfolding normalize_agent
  normalize_agent-IsValid v a h =
      let name = trim (text_of (at_key "name" (some v))) in
      let (passed, same) = guarded _ _ a h in
      subst (λ n. agent_name_error to_lower_case n ≡ none) (ap (λ (x : SeatAgent). x.name) same)
        (no_error (agent_name_error to_lower_case name) (ground (arith, passed)))

  pub push-AreNamed :
      (agents : List SeatAgent) (a : SeatAgent)
      → AreNamed agents
      → IsValid a
      → any (has_key to_lower_case (key_of to_lower_case a)) agents ≡ false
      → AreNamed (agents ++ a ∷ [])
  push-AreNamed agents a named valid new = record {
    valid = All-append IsValid agents (a ∷ []) named.valid (valid, tt);
    unique = rw (keys-append agents (a ∷ [])) (
        Unrepeated-append (keys agents) (key_of to_lower_case a) named.unique
          (any-keys (key_of to_lower_case a) agents ∙ new));
  }

  keys-replace_first :
      (new : SeatAgent) (agents : List SeatAgent)
      → keys (replace_first (has_key to_lower_case (key_of to_lower_case new)) new agents)
        ≡ keys agents
  keys-replace_first new [] = refl
  keys-replace_first new (a ∷ agents) =
      elim (Bool-cases (key_of to_lower_case a == key_of to_lower_case new)) [
        | inl same ↦ rw (same, (eq_iff (key_of to_lower_case a) (key_of to_lower_case new)).0 same)
        | inr other ↦ rw other (ap (◌∷◌ (key_of to_lower_case a)) (keys-replace_first new agents))
      ]

  All-replace_first :
      (p : SeatAgent → Bool) (new : SeatAgent) (agents : List SeatAgent)
      → IsValid new
      → All IsValid agents
      → All IsValid (replace_first p new agents)
  All-replace_first p new [] v h = tt
  All-replace_first p new (a ∷ agents) v h = elim (Bool-cases (p a)) [
    | inl here ↦ rw here (v, h.1)
    | inr behind ↦ rw behind (h.0, All-replace_first p new agents v h.1)
  ]

  pub stored-AreNamed :
      (new : SeatAgent) (agents : List SeatAgent)
      → IsValid new
      → AreNamed agents
      → AreNamed (stored to_lower_case new agents)
  unfolding stored
  stored-AreNamed new agents valid named =
      let key = key_of to_lower_case new in
      elim (Bool-cases (any (has_key to_lower_case key) agents)) [
        | inl there ↦ rw there (record {
          valid = All-replace_first (has_key to_lower_case key) new agents valid named.valid;
          unique = rw (keys-replace_first new agents) named.unique;
        })
        | inr missing ↦ rw missing (push-AreNamed agents new named valid missing)
      ]

  any-filter :
      (k : String) (p : SeatAgent → Bool) (agents : List SeatAgent)
      → any (has_key to_lower_case k) agents ≡ false
      → any (has_key to_lower_case k) (filter p agents) ≡ false
  any-filter k p [] h = refl
  any-filter k p (a ∷ agents) h = ground (arith, h, any-filter k p agents (ground (arith, h)))

  pub Unrepeated-filter :
      (p : SeatAgent → Bool) (agents : List SeatAgent)
      → Unrepeated (keys agents)
      → Unrepeated (keys (filter p agents))
  Unrepeated-filter p [] u = tt
  Unrepeated-filter p (a ∷ agents) u = elim (Bool-cases (p a)) [
    | inl kept ↦
        let k = key_of to_lower_case a in
        rw kept (
          any-keys k (filter p agents) ∙ any-filter k p agents (sym (any-keys k agents) ∙ u.0),
          Unrepeated-filter p agents u.1,
        )
    | inr dropped ↦ rw dropped (Unrepeated-filter p agents u.1)
  ]
