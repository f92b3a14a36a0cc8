-- ===== src/Upgrade/Safe.antt =====
-- What may reach the command line of an upgrade (api/upgrade.ts).
use Prim.Native.Char.{Char, code}
use soulnet.Prelude.{ℕ, zero, suc, ◌+◌, eqb, String, true, false, ◌||◌, none, some, arith}
use soulnet.Prelude.{List, [], ◌∷◌, Bool-cases, Option-cases, inl, inr, All}
use soulnet.Prelude.{◌≡◌, refl, sym, ◌∙◌}
use soulnet.Upgrade.{
  is_ident, Place, before_number, behind_zero, in_number, before_ident, in_ident, read_char,
  matches_from, is_valid_version, Spawn, Upgrades, idle, RunOptions, finish, is_allowed, begin,
  run_upgrade, Event, run_called, ended, step, run,
}

-- Letters, digits, dots and dashes only.
abbrev pub IsPlain : String → Type 0
IsPlain String.[] = Unit
IsPlain (String.◌∷◌ c s) = ((is_ident c || eqb (code c) 46) ≡ true) × IsPlain s

read_char-plain :
    (at next : Place) (c : Char)
    → read_char at c ≡ some next
    → (is_ident c || eqb (code c) 46) ≡ true
unfolding read_char
read_char-plain (before_number k) next c h = ground (arith, h)
read_char-plain (behind_zero zero) next c h = ground (arith, h)
read_char-plain (behind_zero (suc k)) next c h = ground (arith, h)
read_char-plain (in_number zero) next c h = ground (arith, h)
read_char-plain (in_number (suc k)) next c h = ground (arith, h)
read_char-plain before_ident next c h = ground (arith, h)
read_char-plain in_ident next c h = ground (arith, h)

matches_from-IsPlain : (at : Place) (s : String) → matches_from at s ≡ true → IsPlain s
unfolding matches_from
matches_from-IsPlain at String.[] h = tt
matches_from-IsPlain at (String.◌∷◌ c s) h = elim (Option-cases (read_char at c)) [
  | inl stuck ↦ absurd (ground (arith, sym (dead stuck) ∙ h))
  | inr (next, read) ↦
      (read_char-plain at next c read, matches_from-IsPlain next s (sym (moves next read) ∙ h))
]
  where
    dead : read_char at c ≡ none → matches_from at (String.◌∷◌ c s) ≡ false
    dead stuck = simp (matches_from, stuck) refl

    moves :
        (next : Place)
        → read_char at c ≡ some next
        → matches_from at (String.◌∷◌ c s) ≡ matches_from next s
    moves next read = simp (matches_from, read) refl

-- The version is plain, and the registry is one of the listed ones or none.
pub record IsSafe (spawn : Spawn) : Type 0 where
  pub plain : IsPlain spawn.version
  pub listed : is_allowed spawn.registry ≡ true

-- A call changes nothing, or it passed every guard.
pub run_upgrade-guarded :
    (P : Upgrades → Type 0) (version : String) (options : RunOptions) (s : Upgrades)
    → P s
    → ((dir : String)
        → is_valid_version version ≡ true
        → is_allowed options.registry ≡ true
        → s.inflight ≡ false
        → P (begin version dir options s).0)
    → P (run_upgrade version options s).0
unfolding run_upgrade
run_upgrade-guarded P version options s same begun = elim (Bool-cases (is_valid_version version)) [
  | inr bad ↦ simp bad same
  | inl good ↦ elim (Bool-cases (is_allowed options.registry)) [
    | inr strange ↦ simp (good, strange) same
    | inl listed ↦ elim (Option-cases options.profile_dir) [
      | inl nowhere ↦ simp (run_upgrade, good, listed, nowhere) same
      | inr (dir, there) ↦ elim (Bool-cases s.inflight) [
        | inl taken ↦ simp (run_upgrade, good, listed, there, taken) same
        | inr free ↦ simp (run_upgrade, good, listed, there, free) (begun dir good listed free)
      ]
    ]
  ]
]

-- Every command so far is safe.
record AreSafe (s : Upgrades) : Type 0 where
  safe : All IsSafe s.spawned

finish-AreSafe : (i exit_code : ℕ) (s : Upgrades) → AreSafe s → AreSafe (finish i exit_code s)
unfolding finish
finish-AreSafe i exit_code s h = elim (Bool-cases s.inflight) [
  | inl taken ↦ simp taken (record { safe = h.safe })
  | inr free ↦ simp free h
]

begin-AreSafe :
    (version dir : String) (options : RunOptions) (s : Upgrades)
    → is_valid_version version ≡ true
    → is_allowed options.registry ≡ true
    → AreSafe s
    → AreSafe (begin version dir options s).0
unfolding begin is_valid_version
begin-AreSafe version dir options s valid listed h = elim (Bool-cases options.spawn_throws) [
  | inl thrown ↦ simp thrown (
      finish-AreSafe s.started 1 (record s { inflight = true; started = s.started + 1 })
        (record { safe = h.safe }))
  | inr fine ↦ simp fine (record {
    safe = (
      record { plain = matches_from-IsPlain (before_number 2) version valid; listed = listed },
      h.safe,
    );
  })
]

step-AreSafe : (e : Event) (s : Upgrades) → AreSafe s → AreSafe (step e s)
unfolding step
step-AreSafe (run_called version options) s h =
    run_upgrade-guarded AreSafe version options s h
      (λ dir valid listed free. begin-AreSafe version dir options s valid listed h)
step-AreSafe (ended i exit_code) s h = finish-AreSafe i exit_code s h

run-AreSafe : (s : Upgrades) (es : List Event) → AreSafe s → AreSafe (run s es)
unfolding run
run-AreSafe s [] h = h
run-AreSafe s (e ∷ es) h = run-AreSafe (step e s) es (step-AreSafe e s h)

-- Whatever versions and registries are asked for, in any order and beside any ends of runs: in every
-- command that is spawned the version has only letters, digits, dots and dashes, and the registry, if
-- one is given, is one of the two that are listed.
pub spawned-AreSafe : (es : List Event) → All IsSafe (run idle es).spawned
spawned-AreSafe es = (run-AreSafe idle es (record { safe = tt })).safe
