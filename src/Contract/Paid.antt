-- ===== src/Contract/Paid.antt =====
-- The mark of a paid group (group-contract.ts): what is written into the rules is read again.
use text.Mathlib.TextLemmas.{append_assoc}
use soulnet.Prelude.{String, true, false, some}
use soulnet.Prelude.{List, [], ◌∷◌, ◌==◌, Bool-cases, inl, inr}
use soulnet.Prelude.{◌≡◌, refl, sym, ap, ◌∙◌, subst}
use soulnet.Prelude.Text.{◌⧺◌, trim, strip_prefix}
use soulnet.Contract.{
  PaidJoinInfo, paid_join_prefix, lines, starts_space, paid_fields, marked, paid_in_line,
  first_paid, paid_join_from_rules, rules_without_paid_join, rules_with_paid_join,
}
use soulnet.Contract.Words.{
  NoSpace, NoLine, NoSpace-NoLine, nil_append, cons_append, NoLine-append, lines_one, lines-append,
  strip_prefix-append, is_full, is_full_left, not_empty, trim_end-append, split_two,
  trim_start-word, starts_space-append, full, NoSpace-starts,
}

abbrev wallet : String → String
wallet hex = "0x" ⧺ hex

module _ (price hex : String) (word : NoSpace price) (given : price == "" ≡ false)
    (digits : NoSpace hex) where
  -- the address by its characters
  wallet_chars : wallet hex ≡ String.◌∷◌ "0" (String.◌∷◌ "x" hex)
  wallet_chars = rw (cons_append "0" "x" hex, cons_append "x" "" hex, nil_append hex)

  wallet-NoSpace : NoSpace (String.◌∷◌ "0" (String.◌∷◌ "x" hex))
  wallet-NoSpace = (refl, (refl, digits))

  -- A text that starts with no space and ends in the address is not trimmed.
  trim-wallet :
      (s : String)
      → starts_space (s ⧺ wallet hex) ≡ false
      → trim (s ⧺ wallet hex) ≡ (s ⧺ wallet hex)
  unfolding trim
  trim-wallet s h =
      rw (trim_start-word (s ⧺ wallet hex) h, wallet_chars)
        (trim_end-append s "0" (String.◌∷◌ "x" hex) wallet-NoSpace)

  abbrev rest : String
  rest = price ⧺ (" " ⧺ wallet hex)

  price_full : is_full price ≡ true
  price_full = full price given

  trim-rest : trim rest ≡ rest
  trim-rest =
      let e = append_assoc price " " (wallet hex) in
      subst (λ s. trim s ≡ s) e
        (trim-wallet (price ⧺ " ") (
          rw e
            (starts_space-append price (" " ⧺ wallet hex) price_full (NoSpace-starts price word))))

  abbrev marker : String
  marker = paid_join_prefix ⧺ rest

  trim-marker : trim marker ≡ marker
  trim-marker =
      let e : ((paid_join_prefix ⧺ (price ⧺ " ")) ⧺ wallet hex) ≡ marker =
        append_assoc paid_join_prefix (price ⧺ " ") (wallet hex)
        ∙ ap (λ s. paid_join_prefix ⧺ s) (append_assoc price " " (wallet hex)) in
      subst (λ s. trim s ≡ s) e
        (trim-wallet (paid_join_prefix ⧺ (price ⧺ " "))
          (rw e (starts_space-append paid_join_prefix rest refl refl)))

  abbrev info : PaidJoinInfo
  info = record { price = price; addr = wallet hex }

  wallet_word : NoSpace (wallet hex)
  wallet_word = subst NoSpace (sym wallet_chars) wallet-NoSpace

  wallet_starts : starts_space (wallet hex) ≡ false
  wallet_starts = NoSpace-starts (wallet hex) wallet_word

  fields : paid_fields (price ∷ wallet hex ∷ []) ≡ some info
  unfolding paid_fields
  fields = rw (strip_prefix-append "0x" hex, given)

  marker_full : is_full marker ≡ true
  marker_full = is_full_left paid_join_prefix rest refl

  marker-NoLine : NoLine marker
  marker-NoLine =
      NoLine-append paid_join_prefix rest
        (refl, (refl, (refl, (refl, (refl, (refl, (refl, (refl, (refl, (refl, (refl, tt)))))))))))
        (NoLine-append price (" " ⧺ wallet hex) (NoSpace-NoLine price word)
          (NoLine-append " " (wallet hex) (refl, tt) (NoSpace-NoLine (wallet hex) wallet_word)))

  paid_in_line-marker : paid_in_line marker ≡ some info
  unfolding paid_in_line
  paid_in_line-marker =
      let found : marked marker ≡ some rest =
        ap (strip_prefix paid_join_prefix) trim-marker
        ∙ strip_prefix-append paid_join_prefix rest in
      rw (paid_in_line, found, trim-rest)
        (ap paid_fields (split_two price (wallet hex) word wallet_word wallet_starts) ∙ fields)

  first_paid-marker : (later : List String) → first_paid (marker ∷ later) ≡ some info
  unfolding first_paid
  first_paid-marker later = rw paid_in_line-marker

  -- the rules are not empty, and their first line is the mark
  from_marker :
      (rules : String) (later : List String)
      → is_full rules ≡ true
      → lines rules ≡ marker ∷ later
      → paid_join_from_rules rules ≡ some info
  unfolding paid_join_from_rules
  from_marker rules later there split = rw (not_empty rules there, split) (first_paid-marker later)

  -- The mark that `rulesWithPaidJoin` writes, over any rules, is what `paidJoinFromRules` reads: a
  -- price that is a word, and an address that is a word and starts with 0x, come back.
  pub paid_join_from_rules-rules_with_paid_join :
      (rules : String)
      → paid_join_from_rules (rules_with_paid_join rules price (wallet hex)) ≡ some info
  unfolding rules_with_paid_join
  paid_join_from_rules-rules_with_paid_join rules =
      let base = rules_without_paid_join rules in
      elim (Bool-cases (base == "")) [
        | inl blank ↦ rw blank (from_marker marker [] marker_full (lines_one marker marker-NoLine))
        | inr text ↦ rw text (
            from_marker (marker ⧺ ("\n" ⧺ base)) (lines base)
              (is_full_left marker ("\n" ⧺ base) marker_full)
              (lines-append marker base marker-NoLine))
      ]
