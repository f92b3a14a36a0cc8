-- ===== src/Policy/Caps.antt =====
-- dsh/packages/dsh/src/policy.ts: the mechanical caps of a group, read from the group's archive.
use soulnet.Prelude.{ℕ, zero, suc, ◌+◌, ◌≤◌, ◌<◌, String, Bool, true, false, Option, some}
use soulnet.Prelude.{List, [], ◌∷◌, reverse, ◌≡◌, ◌↔◌, ◌∙◌, arith, equals_iff}
use soulnet.Prelude.{
  All, take, length, count, if◌then◌else◌, Bool-cases, inl, inr, get_or, equals, ltb, leb,
}
use soulnet.Prelude.{not, ◌&&◌, length-reverse}
use soulnet.Prelude.Int.{ℤ, pos, negsuc}

pub data Direction : Type 0 where
  incoming outgoing : Direction

pub record GroupCapEntry : Type 0 where
  pub dir : Direction
  pub ts : ℕ
  pub auto : Option Bool
  pub by : Option String

abbrev is_outgoing : Direction → Bool
is_outgoing outgoing = true
is_outgoing incoming = false

-- The test of the loop. `now - ts < windowMs` is read over the integers.
unfoldable pub in_auto_window : ℕ → ℕ → GroupCapEntry → Bool
in_auto_window now window e =
    is_outgoing e.dir
    && get_or e.auto false
    && equals e.by "alter"
    && ltb now (e.ts + window)
    && leb e.ts now

count_from : ℕ → ℕ → ℕ → List GroupCapEntry → ℕ
count_from acc now window [] = acc
count_from acc now window (e ∷ es) =
    count_from (if in_auto_window now window e then acc + 1 else acc) now window es

unfoldable pub count_auto_in_window : List GroupCapEntry → ℕ → ℕ → ℕ
unfolding count_from
count_auto_in_window entries now window = count_from 0 now window entries

-- The loop over the entries from the last one back.
rounds_loop : ℕ → ℕ → List GroupCapEntry → Bool
rounds_loop streak rounds [] = false
rounds_loop streak rounds (e ∷ es) =
    let rest = rounds_loop (streak + 1) rounds es in
    if not (equals e.by "alter") then false else (if leb rounds (streak + 1) then true else rest)

unfoldable pub agent_rounds_exceeded : List GroupCapEntry → ℤ → Bool
unfolding rounds_loop
agent_rounds_exceeded entries (negsuc n) = false
agent_rounds_exceeded entries (pos zero) = false
agent_rounds_exceeded entries (pos (suc n)) = rounds_loop 0 (suc n) (reverse entries)

count_from-eq-add :
    (acc now window : ℕ) (es : List GroupCapEntry)
    → count_from acc now window es ≡ acc + count (in_auto_window now window) es
unfolding count_from
count_from-eq-add acc now window [] = omega arith
count_from-eq-add acc now window (e ∷ es) = elim (Bool-cases (in_auto_window now window e)) [
  | inl t ↦ rw t (omega (arith, count_from-eq-add (acc + 1) now window es))
  | inr f ↦ rw f (count_from-eq-add acc now window es)
]

-- The counter is the number of entries that pass the test.
pub count_auto-eq-count :
    (es : List GroupCapEntry) (now window : ℕ)
    → count_auto_in_window es now window ≡ count (in_auto_window now window) es
unfolding count_auto_in_window
count_auto-eq-count es now window = count_from-eq-add 0 now window es ∙ omega arith

-- The entry is an agent's post.
abbrev pub ByAlter : GroupCapEntry → Type 0
ByAlter e = e.by ≡ some "alter"

rounds_loop_iff :
    (streak rounds k : ℕ) (es : List GroupCapEntry)
    → rounds ≡ streak + suc k
    → (rounds_loop streak rounds es ≡ true) ↔ ((suc k ≤ length es) × All ByAlter (take (suc k) es))
unfolding rounds_loop
rounds_loop_iff streak rounds k [] e = ground arith
rounds_loop_iff streak rounds zero (x ∷ es) e = ground (arith, equals_iff x.by "alter")
rounds_loop_iff streak rounds (suc k) (x ∷ es) e =
    ground (arith, equals_iff x.by "alter", rounds_loop_iff (streak + 1) rounds k es)

-- The agents have used up their rounds exactly when the cap is positive and the archive ends with at
-- least that many entries, all of them posts of agents.
pub agent_rounds_exceeded_iff :
    (es : List GroupCapEntry) (rounds : ℕ)
    → (agent_rounds_exceeded es (pos rounds) ≡ true)
      ↔ ((0 < rounds) × (rounds ≤ length es) × All ByAlter (take rounds (reverse es)))
unfolding agent_rounds_exceeded
agent_rounds_exceeded_iff es zero = ground arith
agent_rounds_exceeded_iff es (suc n) =
    let (to, from) = rounds_loop_iff 0 (suc n) n (reverse es) (omega arith) in
    let same = length-reverse es in
    (λ h. (omega arith, omega (arith, (to h).0), (to h).1), λ h. from (omega arith, h.2))
