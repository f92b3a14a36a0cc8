-- ===== src/Contract/Words.antt =====
-- The text operations of group-contract.ts on texts without spaces: lines, words and trimming.
use Prim.Native.Char.{Char, code}
use Prim.Native.String.append
use soulnet.Prelude.{eqb, String, Bool, true, false, some, arith}
use soulnet.Prelude.{[], ◌∷◌, ◌==◌, Bool-cases, inl, inr, eq_iff, eq_refl}
use soulnet.Prelude.{◌≡◌, refl, sym, ap, ◌∙◌}
use soulnet.Prelude.Text.{◌⧺◌, is_space, trim_start, trim_end, strip_prefix}
use soulnet.Contract.{lines, starts_space, split_spaces}

-- No character of the text is a space or a line end.
abbrev pub NoSpace : String → Type 0
NoSpace String.[] = Unit
NoSpace (String.◌∷◌ c s) = (is_space c ≡ false) × NoSpace s

pub no_newline : (c : Char) → is_space c ≡ false → eqb (code c) 10 ≡ false
no_newline c h = ground (arith, h)

abbrev pub NoLine : String → Type 0
NoLine String.[] = Unit
NoLine (String.◌∷◌ c s) = (eqb (code c) 10 ≡ false) × NoLine s

pub NoSpace-NoLine : (s : String) → NoSpace s → NoLine s
NoSpace-NoLine String.[] h = tt
NoSpace-NoLine (String.◌∷◌ c s) h = (no_newline c h.0, NoSpace-NoLine s h.1)

-- the clauses of the native concatenation
pub nil_append : (t : String) → ("" ⧺ t) ≡ t
nil_append t = append.nil t

pub cons_append : (c : Char) (s t : String) → ((String.◌∷◌ c s) ⧺ t) ≡ String.◌∷◌ c (s ⧺ t)
cons_append c s t = append.cons c s t

pub NoLine-append : (s t : String) → NoLine s → NoLine t → NoLine (s ⧺ t)
NoLine-append String.[] t h k = rw (nil_append t) k
NoLine-append (String.◌∷◌ c s) t h k = rw (cons_append c s t) (h.0, NoLine-append s t h.1 k)

pub lines_one : (s : String) → NoLine s → lines s ≡ s ∷ []
unfolding lines
lines_one String.[] h = refl
lines_one (String.◌∷◌ c s) h = rw (h.0, lines_one s h.1)

pub lines-append : (s t : String) → NoLine s → lines (s ⧺ ("\n" ⧺ t)) ≡ s ∷ lines t
unfolding lines
lines-append String.[] t h = rw (nil_append ("\n" ⧺ t), cons_append "\n" "" t, nil_append t)
lines-append (String.◌∷◌ c s) t h = rw (cons_append c s ("\n" ⧺ t), h.0, lines-append s t h.1)

pub strip_prefix-append : (p s : String) → strip_prefix p (p ⧺ s) ≡ some s
unfolding strip_prefix
strip_prefix-append String.[] s = rw (nil_append s)
strip_prefix-append (String.◌∷◌ c p) s =
    rw (cons_append c p s, eq_refl (String.◌∷◌ c String.[])) (strip_prefix-append p s)

abbrev pub is_full : String → Bool
is_full String.[] = false
is_full (String.◌∷◌ c s) = true

pub is_full-append : (s : String) (c : Char) (t : String) → is_full (s ⧺ (String.◌∷◌ c t)) ≡ true
is_full-append String.[] c t = rw (nil_append (String.◌∷◌ c t))
is_full-append (String.◌∷◌ d s) c t = rw (cons_append d s (String.◌∷◌ c t))

pub is_full_left : (s t : String) → is_full s ≡ true → is_full (s ⧺ t) ≡ true
is_full_left String.[] t h = absurd (ground (arith, h))
is_full_left (String.◌∷◌ c s) t h = rw (cons_append c s t)

pub not_empty : (s : String) → is_full s ≡ true → s == "" ≡ false
not_empty s h = elim (Bool-cases (s == "")) [
  | inl blank ↦ absurd (ground (arith, sym h ∙ ap is_full ((eq_iff s "").0 blank)))
  | inr full ↦ full
]

pub trim_end-NoSpace : (s : String) → NoSpace s → trim_end s ≡ s
unfolding trim_end
trim_end-NoSpace String.[] h = refl
trim_end-NoSpace (String.◌∷◌ c s) h = rw (h.0, trim_end-NoSpace s h.1)

-- A text that ends in a word has nothing to trim at its end.
pub trim_end-append :
    (s : String) (c : Char) (t : String)
    → NoSpace (String.◌∷◌ c t)
    → trim_end (s ⧺ (String.◌∷◌ c t)) ≡ (s ⧺ (String.◌∷◌ c t))
unfolding trim_end
trim_end-append String.[] c t h =
    rw (nil_append (String.◌∷◌ c t)) (trim_end-NoSpace (String.◌∷◌ c t) h)
trim_end-append (String.◌∷◌ d s) c t h =
    let rest = s ⧺ (String.◌∷◌ c t) in
    rw
      (
        cons_append d s (String.◌∷◌ c t),
        trim_end-append s c t h,
        not_empty rest (is_full-append s c t),
      )
      (elim (Bool-cases (is_space d)) [ inl b ↦ rw b | inr b ↦ rw b ])

pub split_word : (s : String) → NoSpace s → split_spaces s ≡ s ∷ []
unfolding split_spaces
split_word String.[] h = refl
split_word (String.◌∷◌ c s) h = rw (h.0, split_word s h.1)

pub split_two :
    (s t : String)
    → NoSpace s
    → NoSpace t
    → starts_space t ≡ false
    → split_spaces (s ⧺ (" " ⧺ t)) ≡ s ∷ t ∷ []
unfolding split_spaces
split_two String.[] t h k first =
    rw (nil_append (" " ⧺ t), cons_append " " "" t, nil_append t, split_word t k, first)
split_two (String.◌∷◌ c s) t h k first =
    rw (cons_append c s (" " ⧺ t), h.0, split_two s t h.1 k first)

pub trim_start-word : (s : String) → starts_space s ≡ false → trim_start s ≡ s
unfolding trim_start
trim_start-word String.[] h = refl
trim_start-word (String.◌∷◌ c s) h = rw h

pub starts_space-append :
    (s t : String) → is_full s ≡ true → starts_space s ≡ false → starts_space (s ⧺ t) ≡ false
starts_space-append String.[] t full h = absurd (ground (arith, full))
starts_space-append (String.◌∷◌ c s) t full h = rw (cons_append c s t) h

pub full : (s : String) → s == "" ≡ false → is_full s ≡ true
full String.[] h = absurd (ground (arith, h))
full (String.◌∷◌ c s) h = refl

pub NoSpace-starts : (s : String) → NoSpace s → starts_space s ≡ false
NoSpace-starts String.[] h = refl
NoSpace-starts (String.◌∷◌ c s) h = h.0
