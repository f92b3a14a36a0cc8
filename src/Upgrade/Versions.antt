-- ===== src/Upgrade/Versions.antt =====
-- dsh/packages/dsh/src/api/upgrade.ts: `compareVersions`. `number` is the host's Number, of the
-- texts that are split off: a parameter, `none` where it answers NaN, which makes the answer NaN.
use Prim.Native.Char.{Char, code}
use Prim.Native.String.append
use soulnet.Prelude.{ℕ, zero, suc, ltb, eqb, String, Bool, true, false, Option, none, some}
use soulnet.Prelude.{List, [], ◌∷◌, ◌==◌, if◌then◌else◌, map, ◌≡◌, refl, ap}
use soulnet.Prelude.Text.{◌⧺◌}
use soulnet.Upgrade.{is_digit}

pub data Sign : Type 0 where
  less equal more : Sign

abbrev on_first : Char → List String → List String
on_first c [] = String.◌∷◌ c String.[] ∷ []
on_first c (s ∷ ss) = String.◌∷◌ c s ∷ ss

-- `s.split` at a character, by its code
unfoldable pub split_char : ℕ → String → List String
split_char n String.[] = "" ∷ []
split_char n (String.◌∷◌ c s) =
    let rest = split_char n s in if eqb (code c) n then "" ∷ rest else on_first c rest

-- `/^\d+$/`, but for the empty text
abbrev all_digits : String → Bool
all_digits String.[] = true
all_digits (String.◌∷◌ c s) = let rest = all_digits s in if is_digit c then rest else false

abbrev sign_of : ℕ → ℕ → Sign
sign_of m n = if ltb m n then less else (if ltb n m then more else equal)

-- `a < b` of strings
abbrev is_before : String → String → Bool
is_before String.[] String.[] = false
is_before String.[] (String.◌∷◌ d t) = true
is_before (String.◌∷◌ c s) String.[] = false
is_before (String.◌∷◌ c s) (String.◌∷◌ d t) =
    let rest = is_before s t in if eqb (code c) (code d) then rest else ltb (code c) (code d)

abbrev head_or_zero : List (Option ℕ) → Option ℕ
head_or_zero [] = some 0
head_or_zero (n ∷ _) = n

abbrev rest_of : List (Option ℕ) → List (Option ℕ)
rest_of [] = []
rest_of (_ ∷ ns) = ns

abbrev sign_of_numbers : Option ℕ → Option ℕ → Option Sign
sign_of_numbers (some m) (some n) = some (sign_of m n)
sign_of_numbers _ _ = none

-- The loop over the three numbers of the core.
unfoldable pub compare_cores : ℕ → List (Option ℕ) → List (Option ℕ) → Option Sign
compare_cores zero as' bs = some equal
compare_cores (suc k) as' bs = elim (sign_of_numbers (head_or_zero as') (head_or_zero bs)) [
  | none ↦ none
  | some less ↦ some less
  | some more ↦ some more
  | some equal ↦ compare_cores k (rest_of as') (rest_of bs)
]

-- `v.split('-', 2)`: what is behind a second dash is dropped
abbrev halves_of : List String → String × Option String
halves_of [] = ("", none)
halves_of (core ∷ []) = (core, none)
halves_of (core ∷ pre ∷ _) = (core, some pre)

unfoldable pub halves : String → String × Option String
unfolding split_char
halves v = halves_of (split_char 45 v)

-- `NaN < n` and `NaN > n` are false
abbrev sign_or_equal : Option ℕ → Option ℕ → Sign
sign_or_equal (some m) (some n) = sign_of m n
sign_or_equal _ _ = equal

module _ (number : String → Option ℕ) where
  unfoldable pub compare_identifier : String → String → Sign
  compare_identifier a b =
      let an = if a == "" then false else all_digits a in
      let bn = if b == "" then false else all_digits b in
      if an
      then (if bn then sign_or_equal (number a) (number b) else less)
      else (if bn
          then more
          else (if is_before a b then less else (if is_before b a then more else equal)))

  unfoldable pub compare_ids : List String → List String → Sign
  unfolding compare_identifier
  compare_ids [] [] = equal
  compare_ids [] (b ∷ bs) = less
  compare_ids (a ∷ as') [] = more
  compare_ids (a ∷ as') (b ∷ bs) = elim (compare_identifier a b) [
    | less ↦ less
    | more ↦ more
    | equal ↦ compare_ids as' bs
  ]

  abbrev compare_pre : Option String → Option String → Sign
  compare_pre none none = equal
  compare_pre none (some _) = more
  compare_pre (some _) none = less
  compare_pre (some a) (some b) = compare_ids (split_char 46 a) (split_char 46 b)

  abbrev compare_halves : String × Option String → String × Option String → Option Sign
  compare_halves (core_a, pre_a) (core_b, pre_b) =
      elim (compare_cores 3 (map number (split_char 46 core_a))
        (map number (split_char 46 core_b))) [
          | none ↦ none
          | some less ↦ some less
          | some more ↦ some more
          | some equal ↦ some (compare_pre pre_a pre_b)
        ]

  unfoldable pub compare_versions : String → String → Option Sign
  unfolding halves compare_cores compare_ids split_char
  compare_versions a b = compare_halves (halves a) (halves b)

abbrev pub NoDash : String → Type 0
NoDash String.[] = Unit
NoDash (String.◌∷◌ c s) = (eqb (code c) 45 ≡ false) × NoDash s

split_char-one : (s : String) → NoDash s → split_char 45 s ≡ s ∷ []
unfolding split_char
split_char-one String.[] h = refl
split_char-one (String.◌∷◌ c s) h = rw (h.0, split_char-one s h.1)

split_char-append : (s t : String) → NoDash s → split_char 45 (s ⧺ ("-" ⧺ t)) ≡ s ∷ split_char 45 t
unfolding split_char
split_char-append String.[] t h = rw (append.nil ("-" ⧺ t), append.cons "-" "" t, append.nil t)
split_char-append (String.◌∷◌ c s) t h =
    rw (append.cons c s ("-" ⧺ t), h.0, split_char-append s t h.1)

halves-dash :
    (core pre x : String)
    → NoDash core
    → NoDash pre
    → halves (core ⧺ ("-" ⧺ (pre ⧺ ("-" ⧺ x)))) ≡ halves (core ⧺ ("-" ⧺ pre))
unfolding halves
halves-dash core pre x h k = rw (
  split_char-append core (pre ⧺ ("-" ⧺ x)) h,
  split_char-append pre x k,
  split_char-append core pre h,
  split_char-one pre k,
)

-- What stands behind a second dash counts for nothing, on either side of the comparison and
-- whatever the other version is: with no dash in `core` and `pre`, the version core-pre-x compares
-- as core-pre does.
pub compare_versions-dash :
    (number : String → Option ℕ) (core pre x b : String)
    → NoDash core
    → NoDash pre
    → (compare_versions number (core ⧺ ("-" ⧺ (pre ⧺ ("-" ⧺ x)))) b
        ≡ compare_versions number (core ⧺ ("-" ⧺ pre)) b)
      × (compare_versions number b (core ⧺ ("-" ⧺ (pre ⧺ ("-" ⧺ x))))
          ≡ compare_versions number b (core ⧺ ("-" ⧺ pre)))
unfolding compare_versions
compare_versions-dash number core pre x b h k =
    let e = halves-dash core pre x h k in
    (ap (λ a. compare_halves number a (halves b)) e, ap (λ a. compare_halves number (halves b) a) e)
