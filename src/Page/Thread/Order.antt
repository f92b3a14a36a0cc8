-- ===== src/Page/Thread/Order.antt =====
-- The order of a thread, `sortThread`, and `lastSeq`.
use soulnet.Prelude.{ℕ, ◌≤◌, ◌<◌, String, Bool, true, false, arith, ◌⊎◌, inl, inr}
use soulnet.Prelude.{List, [], ◌∷◌, ◌≡◌, refl, ◌∙◌, All, count}
use soulnet.Prelude.{if◌then◌else◌, Bool-cases, ltb, any, eqb}
use soulnet.Page.Entry.{ThreadEntry, ThreadState}
use soulnet.Page.Thread.{is_after, place, sort_thread, max_from, last_seq}

-- `a` may stand before `b`: `b` is not archived yet, or both are and `a` has no higher number.
abbrev pub InOrder : ThreadEntry → ThreadEntry → Type 0
InOrder a b = (b.seq ≡ 0) ⊎ ((0 < a.seq) × (a.seq ≤ b.seq))

abbrev pub Sorted : List ThreadEntry → Type 0
Sorted [] = Unit
Sorted (e ∷ es) = All (InOrder e) es × Sorted es

InOrder-trans : (a b c : ThreadEntry) → InOrder a b → InOrder b c → InOrder a c
InOrder-trans a b c h k = ground arith

All-InOrder :
    (a b : ThreadEntry) (es : List ThreadEntry)
    → InOrder a b
    → All (InOrder b) es
    → All (InOrder a) es
All-InOrder a b [] h k = tt
All-InOrder a b (e ∷ es) h k = (InOrder-trans a b e h k.0, All-InOrder a b es h k.1)

module _ (locale_after : String → String → Bool) where
  after-InOrder : (a b : ThreadEntry) → is_after locale_after a b ≡ true → InOrder b a
  after-InOrder a b h = ground arith

  before-InOrder : (a b : ThreadEntry) → is_after locale_after a b ≡ false → InOrder a b
  before-InOrder a b h = ground arith

  All-place :
      (P : ThreadEntry → Type 0) (x : ThreadEntry) (es : List ThreadEntry)
      → P x
      → All P es
      → All P (place locale_after x es)
  All-place P x [] p h = (p, tt)
  All-place P x (y ∷ ys) p h = elim (Bool-cases (is_after locale_after x y)) [
    | inl t ↦ rw t (h.0, All-place P x ys p h.1)
    | inr f ↦ rw f (p, h)
  ]

  place-Sorted :
      (x : ThreadEntry) (es : List ThreadEntry) → Sorted es → Sorted (place locale_after x es)
  place-Sorted x [] h = (tt, tt)
  place-Sorted x (y ∷ ys) h = elim (Bool-cases (is_after locale_after x y)) [
    | inl t ↦ rw t (All-place (InOrder y) x ys (after-InOrder x y t) h.0, place-Sorted x ys h.1)
    | inr f ↦
        let first : InOrder x y = before-InOrder x y f in
        rw f ((first, All-InOrder x y ys first h.0), h)
  ]

  count-place :
      (p : ThreadEntry → Bool) (x : ThreadEntry) (es : List ThreadEntry)
      → count p (place locale_after x es) ≡ count p (x ∷ es)
  count-place p x [] = refl
  count-place p x (y ∷ ys) = ground (arith, count-place p x ys)

  pub count-sort_thread :
      (p : ThreadEntry → Bool) (es : List ThreadEntry)
      → count p (sort_thread locale_after es) ≡ count p es
  unfolding sort_thread
  count-sort_thread p [] = refl
  count-sort_thread p (e ∷ es) =
      count-place p e (sort_thread locale_after es) ∙ ground (arith, count-sort_thread p es)

  -- The sorted thread has the archived entries first, by rising number, and the others behind them,
  -- and it has every entry as often as before: no test counts more or fewer.
  pub sort_thread-Sorted :
      (es : List ThreadEntry) (p : ThreadEntry → Bool)
      → Sorted (sort_thread locale_after es) × (count p (sort_thread locale_after es) ≡ count p es)
  unfolding sort_thread
  sort_thread-Sorted es p = (sorted es, count-sort_thread p es)
    where
      sorted : (es : List ThreadEntry) → Sorted (sort_thread locale_after es)
      sorted [] = tt
      sorted (e ∷ es) = place-Sorted e (sort_thread locale_after es) (sorted es)

max_from-Bound :
    (max : ℕ) (es : List ThreadEntry)
    → (max ≤ max_from max es) × All (λ e. e.seq ≤ max_from max es) es
unfolding max_from
max_from-Bound max [] = (omega arith, tt)
max_from-Bound max (e ∷ es) =
    let ih = max_from-Bound (if ltb max e.seq then e.seq else max) es in
    (ground (arith, ih.0), (ground (arith, ih.0), ih.1))

max_from-Attained :
    (max : ℕ) (es : List ThreadEntry)
    → (max_from max es ≡ max) ⊎ (any (λ e. eqb e.seq (max_from max es)) es ≡ true)
unfolding max_from
max_from-Attained max [] = inl refl
max_from-Attained max (e ∷ es) =
    let ih = max_from-Attained (if ltb max e.seq then e.seq else max) es in ground (arith, ih)

-- The read cursor is the highest number in the thread: no entry is above it, and it is 0 or the
-- number of some entry.
pub last_seq-IsMax :
    (s : ThreadState)
    → All (λ e. e.seq ≤ last_seq s) s.entries
      × ((last_seq s ≡ 0) ⊎ (any (λ e. eqb e.seq (last_seq s)) s.entries ≡ true))
unfolding last_seq
last_seq-IsMax s = ((max_from-Bound 0 s.entries).1, max_from-Attained 0 s.entries)
