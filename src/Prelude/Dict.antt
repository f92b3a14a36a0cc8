-- ===== src/Prelude/Dict.antt =====
-- `Map<string, V>` and string-keyed objects: an association list in insertion order.
use Prim.Native.String.{String}
use mathlib.Core.Path.{◌≡◌, refl, ◌∙◌, sym, subst}
use mathlib.Core.Bool.{true, false}
use mathlib.Core.Logic.{inl, inr}
use mathlib.Core.Option.{Option, none, some}
use mathlib.Core.List.{List, [], ◌∷◌}
use native.Mathlib.Omega.{arith}
use text.Mathlib.Text.{◌==◌}
use text.Mathlib.TextEquality.{eq_iff}
use soulnet.Prelude.Tests.{if◌then◌else◌, Bool-cases, Option-cases}
use soulnet.Prelude.Lists.{All}

abbrev pub Dict {ℓ} : Type ℓ → Type ℓ
Dict V = List (String × V)

ne_symm : (j k : String) → (j == k) ≡ false → (k == j) ≡ false
ne_symm j k h = ground (arith, eq_iff j k, eq_iff k j)

module _ {ℓ} {V : Type ℓ} where
  -- `m.get(k)`
  unfoldable pub lookup : String → Dict V → Option V
  lookup k [] = none
  lookup k ((j, v) ∷ m) = let rest = lookup k m in if j == k then some v else rest

  -- `m.set(k, v)`: an old key keeps its place
  unfoldable pub insert : String → V → Dict V → Dict V
  insert k v [] = (k, v) ∷ []
  insert k v ((j, w) ∷ m) = let rest = insert k v m in if j == k then (j, v) ∷ m else (j, w) ∷ rest

  -- `m.delete(k)`
  unfoldable pub remove : String → Dict V → Dict V
  remove k [] = []
  remove k ((j, w) ∷ m) = let rest = remove k m in if j == k then rest else (j, w) ∷ rest

  -- A read after a write, in one equation for the key that was written and for every other.
  pub lookup-insert :
      (key asked : String) (value : V) (dict : Dict V)
      → lookup asked (insert key value dict)
        ≡ (if key == asked then some value else lookup asked dict)
  unfolding insert lookup
  lookup-insert key asked value [] = refl
  lookup-insert key asked value ((first, held) ∷ dict) =
      let ih = lookup-insert key asked value dict in
      ground (arith, eq_iff first key, eq_iff first asked, eq_iff key asked, ih)

  pub lookup-remove :
      (k j : String) (m : Dict V) → lookup j (remove k m) ≡ (if k == j then none else lookup j m)
  unfolding lookup remove
  lookup-remove k j [] = ground arith
  lookup-remove k j ((i, w) ∷ m) =
      ground (arith, eq_iff k j, eq_iff i k, eq_iff i j, lookup-remove k j m)

  -- No key stands twice, as in every `Map` and every object.
  abbrev pub Distinct : Dict V → Type ℓ
  Distinct [] = Unit
  Distinct ((k, v) ∷ m) = (lookup k m ≡ none) × Distinct m

  pub insert-Distinct : (k : String) (v : V) (m : Dict V) → Distinct m → Distinct (insert k v m)
  unfolding insert lookup
  insert-Distinct k v [] h = (refl, tt)
  insert-Distinct k v ((j, w) ∷ m) h = elim (Bool-cases (j == k)) [
    | inl same ↦ rw same h
    | inr other ↦
        rw other (lookup-insert k j v m ∙ rw (ne_symm j k other) h.0, insert-Distinct k v m h.1)
  ]

  pub remove-Distinct : (k : String) (m : Dict V) → Distinct m → Distinct (remove k m)
  unfolding remove lookup
  remove-Distinct k [] h = tt
  remove-Distinct k ((j, w) ∷ m) h = elim (Bool-cases (j == k)) [
    | inl same ↦ rw same (remove-Distinct k m h.1)
    | inr other ↦
        rw other (lookup-remove k j m ∙ rw (ne_symm j k other) h.0, remove-Distinct k m h.1)
  ]

  -- The loop `for (const [k, v] of entries) if (f(v) !== undefined) out[k] = f(v)`.
  unfoldable pub collect {κ} : {A : Type κ} → (A → Option V) → Dict V → Dict A → Dict V
  collect f out [] = out
  collect f out ((k, a) ∷ es) = elim (f a) [
    | none ↦ collect f out es
    | some v ↦ collect f (insert k v out) es
  ]

module _ {ℓ κ} {V : Type ℓ} {A : Type κ} (f : A → Option V) where
  abbrev then_f : Option A → Option V
  then_f none = none
  then_f (some a) = f a

  abbrev or : Option V → Option V → Option V
  or none o = o
  or (some v) o = some v

  or-none : (o : Option V) → or o none ≡ o
  or-none none = refl
  or-none (some v) = refl

  -- Behind an entry with the key there is no other.
  lookup_behind :
      (k j : String) (es : Dict A) → (k == j) ≡ true → lookup k es ≡ none → lookup j es ≡ none
  lookup_behind k j es same h = rw (← (eq_iff k j).0 same) h

  lookup-collect_from :
      (j : String) (out : Dict V) (es : Dict A)
      → Distinct es
      → lookup j (collect f out es) ≡ or (then_f (lookup j es)) (lookup j out)
  unfolding lookup collect
  lookup-collect_from j out [] h = refl
  lookup-collect_from j out ((k, a) ∷ es) h = elim (Option-cases (f a)) [
    | inl missing ↦
        rw (missing, collect)
          (lookup-collect_from j out es h.1 ∙ elim (Bool-cases (k == j)) [
            | inl same ↦ rw (same, missing, lookup_behind k j es same h.0)
            | inr other ↦ rw other
          ])
    | inr (v, found) ↦
        rw (found, collect)
          (lookup-collect_from j (insert k v out) es h.1 ∙ elim (Bool-cases (k == j)) [
            | inl same ↦ rw (lookup-insert, same, found, lookup_behind k j es same h.0)
            | inr other ↦ rw (lookup-insert, other)
          ])
  ]

  -- What the loop collects under a key is `f` of what the entries have under it.
  pub lookup-collect :
      (j : String) (es : Dict A) → Distinct es → lookup j (collect f [] es) ≡ then_f (lookup j es)
  unfolding lookup
  lookup-collect j es h = lookup-collect_from j [] es h ∙ or-none (then_f (lookup j es))

  collect-Distinct : (out : Dict V) (es : Dict A) → Distinct out → Distinct (collect f out es)
  unfolding collect
  collect-Distinct out [] h = h
  collect-Distinct out ((k, a) ∷ es) h = elim (Option-cases (f a)) [
    | inl missing ↦ rw (missing, collect) (collect-Distinct out es h)
    | inr (v, found) ↦
        rw (found, collect) (collect-Distinct (insert k v out) es (insert-Distinct k v out h))
  ]

module _ {ℓ κ} {V : Type ℓ} (P : String × V → Type κ) where
  pub All-insert : (k : String) (v : V) (m : Dict V) → P (k, v) → All P m → All P (insert k v m)
  unfolding insert
  All-insert k v [] p h = (p, tt)
  All-insert k v ((j, w) ∷ m) p h = elim (Bool-cases (j == k)) [
    | inl same ↦ rw same (subst (λ x. P (x, v)) (sym ((eq_iff j k).0 same)) p, h.1)
    | inr other ↦ rw other (h.0, All-insert k v m p h.1)
  ]

  pub All-remove : (k : String) (m : Dict V) → All P m → All P (remove k m)
  unfolding remove
  All-remove k [] h = tt
  All-remove k ((j, w) ∷ m) h = elim (Bool-cases (j == k)) [
    | inl same ↦ rw same (All-remove k m h.1)
    | inr other ↦ rw other (h.0, All-remove k m h.1)
  ]

  pub All-lookup : (k : String) (m : Dict V) (v : V) → All P m → lookup k m ≡ some v → P (k, v)
  unfolding lookup
  All-lookup k [] v h e = absurd (ground arith)
  All-lookup k ((j, w) ∷ m) v h e = elim (Bool-cases (j == k)) [
    | inl same ↦
        let e' : w ≡ v = ground arith in
        subst (λ x. P (k, x)) e' (subst (λ x. P (x, w)) ((eq_iff j k).0 same) h.0)
    | inr other ↦ All-lookup k m v h.1 (ground arith)
  ]
