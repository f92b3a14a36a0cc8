-- ===== src/Drafts/Counts.antt =====
-- `counts` of drafts.ts, an object built in one pass, against `count` for each friend.
use soulnet.Prelude.{ℕ, zero, suc, ◌+◌, String, Option, none, some, arith, eq_iff}
use soulnet.Prelude.{
  List, [], ◌∷◌, ◌==◌, ◌≡◌, refl, ap, get_or, filter, length, Bool-cases, inl, inr,
}
use soulnet.Prelude.Dict.{Dict, lookup, insert, lookup-insert}
use soulnet.Drafts.{PendingDraft, DraftStore, list, count, counts, counts_from}

-- A count of an object that has a key only for a count above 0.
abbrev pub shown : ℕ → Option ℕ
shown zero = none
shown (suc n) = some (suc n)

get_or-shown : (n : ℕ) → get_or (shown n) 0 ≡ n
get_or-shown zero = refl
get_or-shown (suc n) = refl

pub lookup-counts_from :
    (fp : String) (out : Dict ℕ) (n : ℕ) (ds : List PendingDraft)
    → lookup fp out ≡ shown n
    → lookup fp (counts_from out ds) ≡ shown (n + length (filter (λ d. d.fp == fp) ds))
unfolding counts_from
lookup-counts_from fp out n [] h = let e : n + 0 ≡ n = omega arith in rw e h
lookup-counts_from fp out n (d ∷ ds) h = elim (Bool-cases (d.fp == fp)) [
  | inl same ↦
      let e : d.fp ≡ fp = (eq_iff d.fp fp).0 same in
      let before : get_or (lookup d.fp out) 0 ≡ n = rw (e, h) (get_or-shown n) in
      let step : lookup fp (insert d.fp (get_or (lookup d.fp out) 0 + 1) out) ≡ some (suc n) =
        rw (lookup-insert, same) (ap some (omega arith)) in
      let shift : n + suc (length (filter (λ x. x.fp == fp) ds))
          ≡ suc n + length (filter (λ x. x.fp == fp) ds) =
        omega arith in
      rw (same, shift) (lookup-counts_from fp _ (suc n) ds step)
  | inr other ↦
      rw other (lookup-counts_from fp (insert d.fp _ out) n ds (rw (lookup-insert, other) h))
]

-- For every friend the object of `counts` has the number that `count` answers, and no key for a
-- friend without drafts.
pub lookup-counts :
    (s : DraftStore) (fp : String) → lookup fp (counts s) ≡ shown (count s (some fp))
unfolding counts count list lookup
lookup-counts s fp =
    let n = length (filter (λ d. d.fp == fp) s.drafts) in
    let e : 0 + n ≡ n = omega arith in rw (← e) (lookup-counts_from fp [] 0 s.drafts refl)
