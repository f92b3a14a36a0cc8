-- ===== src/Policy/Window/Ledger.antt =====
-- `HourlyWindow` against a ledger of all hits, which nothing is ever dropped from.
use soulnet.Prelude.{ℕ, ◌≤◌, String, List, [], ◌∷◌, ◌++◌}
use soulnet.Prelude.{
  ◌≡◌, refl, sym, ap, ◌∙◌, arith, ◌==◌, eq_iff, append_assoc, append-nil, subst, fun_ext,
}
use soulnet.Prelude.{if◌then◌else◌, get_or, filter, length, Bool-cases, filter-append, inl, inr}
use soulnet.Prelude.Dict.{lookup, lookup-insert, lookup-remove}
use soulnet.Policy.Window.{HourlyWindow, is_recent, keep, prune, count, record_hit, retry_after}

-- A call of the window, with the time at which it was made.
pub data Call : Type 0 where
  count_at record_at retry_at : String → ℕ → Call

abbrev pub time : Call → ℕ
time (count_at key now) = now
time (record_at key now) = now
time (retry_at key now) = now

-- The clock of the calls never goes back, and starts at or after t.
abbrev pub Rises : ℕ → List Call → Type 0
Rises t [] = Unit
Rises t (c ∷ cs) = (t ≤ time c) × Rises (time c) cs

abbrev pub after : HourlyWindow → Call → HourlyWindow
after w (count_at key now) = (count w key now).0
after w (record_at key now) = (record_hit w key now).0
after w (retry_at key now) = (retry_after w key now).0

unfoldable pub run : HourlyWindow → List Call → HourlyWindow
run w [] = w
run w (c ∷ cs) = run (after w c) cs

abbrev pub last_time : ℕ → List Call → ℕ
last_time t [] = t
last_time t (c ∷ cs) = last_time (time c) cs

-- The times recorded for a key, oldest first.
unfoldable pub recorded : String → List Call → List ℕ
recorded key [] = []
recorded key (record_at k now ∷ cs) =
    let rest = recorded key cs in if k == key then now ∷ rest else rest
recorded key (_ ∷ cs) = recorded key cs

abbrev stored : HourlyWindow → String → List ℕ
stored w key = get_or (lookup key w.hits) []

-- From time t on, what is stored for a key and the ledger show the same recent hits.
pub record Agrees (window t : ℕ) (w : HourlyWindow) (ledger : String → List ℕ) : Type 0 where
  pub same_window : w.window_ms ≡ window
  pub same_recent :
      (key : String) (now : ℕ)
      → t ≤ now
      → filter (is_recent window now) (stored w key) ≡ filter (is_recent window now) (ledger key)

-- What was recent enough earlier is filtered no differently later.
filter_later :
    (window t now : ℕ) (xs : List ℕ)
    → t ≤ now
    → filter (is_recent window now) (filter (is_recent window t) xs)
      ≡ filter (is_recent window now) xs
filter_later window t now [] h = refl
filter_later window t now (x ∷ xs) h = ground (arith, filter_later window t now xs h)

stored-keep :
    (w : HourlyWindow) (key j : String) (list : List ℕ)
    → stored (keep key list w) j ≡ (if key == j then list else stored w j)
unfolding keep
stored-keep w key j [] = ground (arith, lookup-remove key j w.hits)
stored-keep w key j (x ∷ xs) = ground (arith, lookup-insert key j (x ∷ xs) w.hits)

window-keep :
    (w : HourlyWindow) (key : String) (list : List ℕ) → (keep key list w).window_ms ≡ w.window_ms
unfolding keep
window-keep w key [] = refl
window-keep w key (x ∷ xs) = refl

module _ (w : HourlyWindow) (key : String) (t : ℕ) where
  window-prune : (prune w key t).0.window_ms ≡ w.window_ms
  unfolding prune
  window-prune = window-keep w key _

  stored-prune :
      (j : String)
      → stored (prune w key t).0 j
        ≡ (if key == j then filter (is_recent w.window_ms t) (stored w j) else stored w j)
  unfolding prune
  stored-prune j =
      ground
        (arith, eq_iff key j, stored-keep w key j (filter (is_recent w.window_ms t) (stored w key)))

  stored-record_hit :
      (j : String)
      → stored (record_hit w key t).0 j
        ≡ stored (prune w key t).0 j ++ (if key == j then t ∷ [] else [])
  unfolding record_hit prune
  stored-record_hit j =
      let list = filter (is_recent w.window_ms t) (stored w key) in
      rw (lookup-insert key j (list ++ t ∷ []) (keep key list w).hits)
        (elim (Bool-cases (key == j)) [
          | inl same ↦ rw (stored-keep w key j list, same)
          | inr other ↦ rw other (sym (append-nil _))
        ])

  window-record_hit : (record_hit w key t).0.window_ms ≡ w.window_ms
  unfolding record_hit
  window-record_hit = window-prune

  module _ {window s : ℕ} {ledger : String → List ℕ} (h : s ≤ t)
      (agrees : Agrees window s w ledger) where
    prune-Agrees : Agrees window t (prune w key t).0 ledger
    prune-Agrees = record {
      same_window = window-prune ∙ agrees.same_window;
      same_recent = λ j now le.
          rw (stored-prune j, agrees.same_window)
            (elim (Bool-cases (key == j)) [
              | inl same ↦ rw same (
                  filter_later window t now (stored w j) le
                  ∙ agrees.same_recent j now (omega arith))
              | inr other ↦ rw other (agrees.same_recent j now (omega arith))
            ]);
    }

    pub record_hit-Agrees :
        Agrees window t (record_hit w key t).0 (λ j. ledger j ++ (if key == j then t ∷ [] else []))
    record_hit-Agrees = record {
      same_window = window-record_hit ∙ agrees.same_window;
      same_recent = λ j now le.
          rw (stored-record_hit j, filter-append, filter-append)
            (ap (λ l. l ++ filter (is_recent window now) (if key == j then t ∷ [] else []))
              (prune-Agrees.same_recent j now le));
    }

after-Agrees :
    (w : HourlyWindow) (c : Call) {window t : ℕ} {ledger : String → List ℕ}
    → t ≤ time c
    → Agrees window t w ledger
    → Agrees window (time c) (after w c) (λ j. ledger j ++ recorded j (c ∷ []))
unfolding recorded count record_hit retry_after
after-Agrees w (count_at key now) h agrees = simp append-nil (prune-Agrees w key now h agrees)
after-Agrees w (record_at key now) h agrees = record_hit-Agrees w key now h agrees
after-Agrees w (retry_at key now) h agrees = simp append-nil (prune-Agrees w key now h agrees)

pub Agrees-later :
    (w : HourlyWindow) {window t now : ℕ} {ledger : String → List ℕ}
    → t ≤ now
    → Agrees window t w ledger
    → Agrees window now w ledger
Agrees-later w h agrees = record {
  same_window = agrees.same_window;
  same_recent = λ j n le. agrees.same_recent j n (omega arith);
}

pub counted-Agrees :
    (w : HourlyWindow) (key : String) {window t now : ℕ} {ledger : String → List ℕ}
    → t ≤ now
    → Agrees window t w ledger
    → Agrees window now (count w key now).0 ledger
unfolding count
counted-Agrees w key {now} h agrees = prune-Agrees w key now h agrees

pub count-Agrees :
    (w : HourlyWindow) (key : String) {window t now : ℕ} {ledger : String → List ℕ}
    → t ≤ now
    → Agrees window t w ledger
    → (count w key now).1 ≡ length (filter (is_recent window now) (ledger key))
unfolding count prune
count-Agrees w key {now} h agrees = rw agrees.same_window (ap length (agrees.same_recent key now h))

recorded-cons :
    (key : String) (c : Call) (cs : List Call)
    → recorded key (c ∷ cs) ≡ recorded key (c ∷ []) ++ recorded key cs
unfolding recorded
recorded-cons key (record_at k now) cs = ground arith
recorded-cons key (count_at k now) cs = refl
recorded-cons key (retry_at k now) cs = refl

run-Agrees :
    (w : HourlyWindow) (cs : List Call) {window t : ℕ} {ledger : String → List ℕ}
    → Rises t cs
    → Agrees window t w ledger
    → Agrees window (last_time t cs) (run w cs) (λ j. ledger j ++ recorded j cs)
unfolding run
run-Agrees w [] h agrees = unfold recorded in simp append-nil agrees
run-Agrees w (c ∷ cs) {ledger} h agrees =
    let e : (j : String)
        → (ledger j ++ recorded j (c ∷ [])) ++ recorded j cs ≡ ledger j ++ recorded j (c ∷ cs) =
      λ j.
        append_assoc (ledger j) (recorded j (c ∷ [])) (recorded j cs)
        ∙ ap (λ l. ledger j ++ l) (sym (recorded-cons j c cs)) in
    subst (Agrees _ _ _) (fun_ext e) (run-Agrees (after w c) cs h.1 (after-Agrees w c h.0 agrees))

abbrev pub empty : ℕ → HourlyWindow
empty window = record { hits = []; window_ms = window }

-- `HourlyWindow` refines a ledger that forgets nothing. After any calls in the order of the clock,
-- on a window that starts empty, `count` returns how many hits of the ledger of that key are less
-- than the window's length old, although every call prunes what it finds too old.
pub count-run :
    (window : ℕ) (cs : List Call) (key : String) (now : ℕ)
    → Rises 0 cs
    → last_time 0 cs ≤ now
    → (count (run (empty window) cs) key now).1
      ≡ length (filter (is_recent window now) (recorded key cs))
unfolding count prune lookup
count-run window cs key now rises le =
    let agrees =
      run-Agrees (empty window) cs {ledger = λ _. []} rises
        (record { same_window = refl; same_recent = λ _ _ _. refl }) in
    rw agrees.same_window (ap length (agrees.same_recent key now le))
