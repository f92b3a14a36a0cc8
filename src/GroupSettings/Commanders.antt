-- ===== src/GroupSettings/Commanders.antt =====
-- The whitelists that `normalizeCommanders` of group-settings.ts keeps.
use soulnet.Prelude.{◌≤◌, ◌<◌, String, Bool, true, false, Option, some, List, [], ◌∷◌, ◌++◌}
use soulnet.Prelude.{◌⊎◌, ◌==◌, ◌≡◌, ◌≢◌, refl, subst, arith, eq_iff, eq_refl}
use soulnet.Prelude.{
  All, All-append, length, length-append, eqb, eqb_iff, Bool-cases, inl, inr, ◌||◌,
}
use soulnet.Json.{Json, null, str, arr, items, of_items, items-of_items}
use soulnet.GroupSettings.{max_commanders, includes, commanders_loop, normalize_commanders}

-- No string stands twice.
abbrev pub Unrepeated : List String → Type 0
Unrepeated [] = Unit
Unrepeated (c ∷ cs) = (includes cs c ≡ false) × Unrepeated cs

includes-append :
    (xs ys : List String) (v : String) → includes (xs ++ ys) v ≡ includes xs v || includes ys v
includes-append [] ys v = refl
includes-append (x ∷ xs) ys v = ground (arith, includes-append xs ys v)

Unrepeated-snoc :
    (xs : List String) (v : String)
    → includes xs v ≡ false
    → Unrepeated xs
    → Unrepeated (xs ++ v ∷ [])
Unrepeated-snoc [] v h u = (refl, tt)
Unrepeated-snoc (x ∷ xs) v h u = (
  ground (arith, includes-append xs (v ∷ []) x, eq_iff x v, eq_iff v x),
  Unrepeated-snoc xs v (ground arith) u.1,
)

-- A whitelist as it is stored: trimmed strings, none of them empty, each once, at most 64.
pub record IsWhitelist (trim : String → String) (cs : List String) : Type 0 where
  pub few : length cs ≤ max_commanders
  pub full : All (λ c. c ≢ "") cs
  pub trimmed : All (λ c. trim c ≡ c) cs
  pub once : Unrepeated cs

-- What the list keeps of one item of the raw value: a string that is not blank, unless 64 others
-- came first.
abbrev pub Keeps : (String → String) → List String → Json → Type 0
Keeps trim cs (str c) = (trim c ≡ "") ⊎ (includes cs (trim c) ≡ true) ⊎ (length cs ≡ max_commanders)
Keeps trim cs _ = Unit

module _ (trim : String → String) (trim_idem : (s : String) → trim (trim s) ≡ trim s) where
  IsWhitelist-snoc :
      (out : List String) (c : String)
      → length out < max_commanders
      → trim c ≢ ""
      → includes out (trim c) ≡ false
      → IsWhitelist trim out
      → IsWhitelist trim (out ++ trim c ∷ [])
  IsWhitelist-snoc out c room full new w = record {
    few = omega (arith, length-append out (trim c ∷ []));
    full = All-append (λ d. d ≢ "") out (trim c ∷ []) w.full (full, tt);
    trimmed = All-append (λ d. trim d ≡ d) out (trim c ∷ []) w.trimmed (trim_idem c, tt);
    once = Unrepeated-snoc out (trim c) new w.once;
  }

  commanders_loop-IsWhitelist :
      (out : List String) (cs : List Json)
      → length out < max_commanders
      → IsWhitelist trim out
      → IsWhitelist trim (commanders_loop trim out cs)
  unfolding commanders_loop
  commanders_loop-IsWhitelist out [] room w = w
  commanders_loop-IsWhitelist out (str c ∷ cs) room w =
      let longer = out ++ trim c ∷ [] in
      elim (Bool-cases (trim c == "" || includes out (trim c))) [
        | inl skip ↦ rw skip (commanders_loop-IsWhitelist out cs room w)
        | inr keep ↦
            let full : trim c ≢ "" = ground (arith, eq_iff (trim c) "") in
            let new : includes out (trim c) ≡ false = ground arith in
            let w' : IsWhitelist trim longer = IsWhitelist-snoc out c room full new w in
            elim (Bool-cases (eqb (length longer) max_commanders)) [
              | inl stop ↦ rw (keep, stop) w'
              | inr go ↦
                  let room' : length longer < max_commanders = ground (arith, w'.few) in
                  rw (keep, go) (commanders_loop-IsWhitelist longer cs room' w')
            ]
      ]
  commanders_loop-IsWhitelist out (null ∷ cs) room w = commanders_loop-IsWhitelist out cs room w
  commanders_loop-IsWhitelist out (_ ∷ cs) room w = commanders_loop-IsWhitelist out cs room w

  nil-IsWhitelist : IsWhitelist trim []
  nil-IsWhitelist = record { few = omega arith; full = tt; trimmed = tt; once = tt }

  -- Whatever value stands for a whitelist, what is kept of it is a list of trimmed strings, none of
  -- them empty, none twice, and at most 64.
  pub normalize_commanders-IsWhitelist :
      (raw : Option Json) → IsWhitelist trim (normalize_commanders trim raw)
  unfolding normalize_commanders
  normalize_commanders-IsWhitelist (some (arr raw)) =
      commanders_loop-IsWhitelist [] (items raw) (omega arith) nil-IsWhitelist
  normalize_commanders-IsWhitelist raw = nil-IsWhitelist

module _ (trim : String → String) where
  -- The loop drops nothing that it kept.
  includes-commanders_loop :
      (out : List String) (cs : List Json) (v : String)
      → includes out v ≡ true
      → includes (commanders_loop trim out cs) v ≡ true
  unfolding commanders_loop
  includes-commanders_loop out [] v h = h
  includes-commanders_loop out (str c ∷ cs) v h =
      let longer = out ++ trim c ∷ [] in
      let h' : includes longer v ≡ true = ground (arith, includes-append out (trim c ∷ []) v) in
      ground (arith, includes-commanders_loop out cs v h, includes-commanders_loop longer cs v h')
  includes-commanders_loop out (null ∷ cs) v h = includes-commanders_loop out cs v h
  includes-commanders_loop out (_ ∷ cs) v h = includes-commanders_loop out cs v h

  Keeps-full :
      (cs : List String) (raw : List Json) → length cs ≡ max_commanders → All (Keeps trim cs) raw
  Keeps-full cs [] h = tt
  Keeps-full cs (str c ∷ raw) h = (inr (inr h), Keeps-full cs raw h)
  Keeps-full cs (null ∷ raw) h = (tt, Keeps-full cs raw h)
  Keeps-full cs (_ ∷ raw) h = (tt, Keeps-full cs raw h)

  -- The branches of one round.
  round_skip :
      (out : List String) (c : String) (cs : List Json)
      → (trim c ≡ "") ⊎ (includes out (trim c) ≡ true)
      → commanders_loop trim out cs ≡ commanders_loop trim out (str c ∷ cs)
  unfolding commanders_loop
  round_skip out c cs h = ground (arith, eq_iff (trim c) "")

  module _ (out : List String) (c : String) (cs : List Json) (full : trim c ≢ "")
      (new : includes out (trim c) ≡ false) where
    abbrev longer : List String
    longer = out ++ trim c ∷ []

    round_stop :
        eqb (length longer) max_commanders ≡ true → longer ≡ commanders_loop trim out (str c ∷ cs)
    unfolding commanders_loop
    round_stop h = ground (arith, eq_iff (trim c) "")

    round_go :
        eqb (length longer) max_commanders ≡ false
        → commanders_loop trim longer cs ≡ commanders_loop trim out (str c ∷ cs)
    unfolding commanders_loop
    round_go h = ground (arith, eq_iff (trim c) "")

  abbrev is_text : Json → Bool
  is_text (str c) = true
  is_text _ = false

  Keeps-other :
      (out : List String) (v : Json) (cs : List Json)
      → is_text v ≡ false
      → All (Keeps trim (commanders_loop trim out cs)) cs
      → All (Keeps trim (commanders_loop trim out (v ∷ cs))) (v ∷ cs)
  unfolding commanders_loop
  Keeps-other out (str c) cs h rest = absurd (ground arith)
  Keeps-other out null cs h rest = (tt, rest)
  Keeps-other out _ cs h rest = (tt, rest)

  commanders_loop-Keeps :
      (out : List String) (cs : List Json) → All (Keeps trim (commanders_loop trim out cs)) cs
  commanders_loop-Keeps out [] = tt
  commanders_loop-Keeps out (str c ∷ cs) =
      let longer' = out ++ trim c ∷ [] in
      let mine : includes longer' (trim c) ≡ true =
        ground (arith, includes-append out (trim c ∷ []) (trim c), eq_refl (trim c)) in
      let kept = λ (r : List String). All (Keeps trim r) (str c ∷ cs) in
      let rest = commanders_loop-Keeps out cs in
      elim (Bool-cases (trim c == "")) [
        | inl blank ↦
            let e = (eq_iff (trim c) "").0 blank in
            subst kept (round_skip out c cs (inl e)) (inl e, rest)
        | inr full ↦ elim (Bool-cases (includes out (trim c))) [
          | inl old ↦
              subst kept (round_skip out c cs (inr old))
                (inr (inl (includes-commanders_loop out cs (trim c) old)), rest)
          | inr new ↦
              let ne : trim c ≢ "" = ground (arith, eq_iff (trim c) "") in
              elim (Bool-cases (eqb (length longer') max_commanders)) [
                | inl stop ↦
                    subst kept (round_stop out c cs ne new stop)
                      (inr (inl mine), Keeps-full longer' cs ((eqb_iff _ _).0 stop))
                | inr go ↦ subst kept (round_go out c cs ne new go) (
                  inr (inl (includes-commanders_loop longer' cs (trim c) mine)),
                  commanders_loop-Keeps longer' cs,
                )
              ]
        ]
      ]
  commanders_loop-Keeps out (v ∷ cs) = Keeps-other out v cs refl (commanders_loop-Keeps out cs)

  -- Of an array, every string is kept in trimmed form, unless it is blank or 64 others are kept.
  pub normalize_commanders-Keeps :
      (raw : List Json)
      → All (Keeps trim (normalize_commanders trim (some (arr (of_items raw))))) raw
  unfolding normalize_commanders
  normalize_commanders-Keeps raw = rw (items-of_items raw) (commanders_loop-Keeps [] raw)
