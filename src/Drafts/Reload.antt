-- ===== src/Drafts/Reload.antt =====
-- drafts.ts: what is written to the file is read back as it was.
use soulnet.Prelude.{String, Bool, true, Option, none, some, arith, eq_iff, ◌≢◌}
use soulnet.Prelude.{
  List, [], ◌∷◌, ◌++◌, ◌==◌, ◌≡◌, refl, ap, ◌∙◌, All, All-append, All-filter, filter,
  filter_of_length, length, not, eqb, eqb_iff, sym, Option-cases, Bool-cases, inl, inr, subst,
  eq_of_some-eq-some,
}
use soulnet.Json.{Json, arr, obj, items, of_items, get_field, text_of}
use soulnet.Drafts.{
  PendingDraft, DraftStore, NewDraft, or_else, unless_empty, object_of, epoch, normalize,
  normalize_all, to_json, to_json_all, drafts_of_file, stored_items, load, flush, get, add, remove,
  remove_all, stored_as,
}

-- A string that is left out rather than empty.
abbrev NotEmpty : Option String → Type 0
NotEmpty none = Unit
NotEmpty (some s) = s ≢ ""

abbrev IsObject : Option Json → Type 0
IsObject t = object_of t ≡ t

-- A draft as the gates produce it: its keys are filled in.
pub record IsWhole (d : PendingDraft) : Type 0 where
  pub id : d.id ≢ ""
  pub fp : d.fp ≢ ""
  pub gid : NotEmpty d.gid
  pub name : d.name ≢ ""
  pub created_at : d.created_at ≢ ""
  pub reason : d.reason ≢ ""
  pub trigger : IsObject d.trigger
  pub session_id : NotEmpty d.session_id
  pub agent : NotEmpty d.agent

abbrev text : Option String → String
text none = ""
text (some s) = s

unless_empty-text : (o : Option String) → NotEmpty o → unless_empty (text o) ≡ o
unless_empty-text none h = refl
unless_empty-text (some s) h = ground (arith, eq_iff s "")

or_else_of_ne : (s fallback : String) → s ≢ "" → or_else s fallback ≡ s
or_else_of_ne s fallback h = ground (arith, eq_iff s "")

normalize-to_json : (d : PendingDraft) → IsWhole d → normalize (to_json d) ≡ some d
unfolding normalize to_json get_field text_of
normalize-to_json d w = ground (
  arith,
  eq_iff d.id "",
  eq_iff d.fp "",
  unless_empty-text d.gid,
  or_else_of_ne d.name d.fp,
  or_else_of_ne d.created_at epoch,
  or_else_of_ne d.reason "unknown-trigger",
  unless_empty-text d.session_id,
  unless_empty-text d.agent,
)

NotEmpty-unless_empty : (s : String) → NotEmpty (unless_empty s)
NotEmpty-unless_empty s = elim (Bool-cases (s == "")) [
  | inl empty ↦ rw empty tt
  | inr full ↦ rw full (λ e. ground (arith, eq_iff s ""))
]

or_else-ne : (s fallback : String) → fallback ≢ "" → or_else s fallback ≢ ""
or_else-ne s fallback h = ground (arith, eq_iff s "")

object_of-object_of : (t : Option Json) → object_of (object_of t) ≡ object_of t
object_of-object_of (some (obj fs)) = refl
object_of-object_of (some (arr vs)) = refl
object_of-object_of t = refl

literal_ne : (epoch ≢ "") × (◌≢◌ {A = String} "unknown-trigger" "")
literal_ne = (ground (arith, eq_iff epoch ""), ground (arith, eq_iff "unknown-trigger" ""))

-- What `normalize` accepts is whole.
normalize-IsWhole : (v : Json) {d : PendingDraft} → normalize v ≡ some d → IsWhole d
unfolding normalize
normalize-IsWhole (obj v) {d} h =
    let id = text_of (get_field "id" v) in
    let fp = text_of (get_field "fp" v) in
    elim (Bool-cases (id == "")) [
      | inl bad ↦ absurd (ground arith)
      | inr has_id ↦ elim (Bool-cases (fp == "")) [
        | inl bad ↦ absurd (ground arith)
        | inr has_fp ↦
            let fp_ne : fp ≢ "" = ground (arith, eq_iff fp "") in
            subst IsWhole (eq_of_some-eq-some (rw (has_id, has_fp) at h)) (record {
              id = ground (arith, eq_iff id "");
              fp = fp_ne;
              gid = NotEmpty-unless_empty _;
              name = or_else-ne (text_of (get_field "name" v)) fp fp_ne;
              created_at = or_else-ne (text_of (get_field "createdAt" v)) epoch literal_ne.0;
              reason = or_else-ne (text_of (get_field "reason" v)) "unknown-trigger" literal_ne.1;
              trigger = object_of-object_of (get_field "trigger" v);
              session_id = NotEmpty-unless_empty _;
              agent = NotEmpty-unless_empty _;
            })
      ]
    ]
normalize-IsWhole v h = cc

normalize_all-IsWhole : (vs : List Json) → All IsWhole (normalize_all vs)
unfolding normalize_all
normalize_all-IsWhole [] = tt
normalize_all-IsWhole (v ∷ vs) = elim (Option-cases (normalize v)) [
  | inl bad ↦ rw (bad, normalize_all) (normalize_all-IsWhole vs)
  | inr (d, good) ↦ rw (good, normalize_all) (normalize-IsWhole v good, normalize_all-IsWhole vs)
]

normalize_all-to_json_all :
    (ds : List PendingDraft)
    → All IsWhole ds
    → normalize_all (items (of_items (to_json_all ds))) ≡ ds
unfolding normalize_all to_json_all
normalize_all-to_json_all [] h = refl
normalize_all-to_json_all (d ∷ ds) h =
    rw (normalize-to_json d h.0, normalize_all) (ap (◌∷◌ d) (normalize_all-to_json_all ds h.1))

-- The drafts in memory are whole, and a fresh `load` of the file would read the same ones.
record Mirrors (s : DraftStore) : Type 0 where
  whole : All IsWhole s.drafts
  same : drafts_of_file s.file ≡ s.drafts

drafts_of_file-IsWhole : (file : Option Json) → All IsWhole (drafts_of_file file)
unfolding drafts_of_file
drafts_of_file-IsWhole (some (obj v)) = normalize_all-IsWhole (stored_items (get_field "drafts" v))
drafts_of_file-IsWhole file = tt

load-Mirrors : (s : DraftStore) → Mirrors (load s)
unfolding load drafts_of_file
load-Mirrors s = record { whole = drafts_of_file-IsWhole s.file; same = refl }

flush-Mirrors : (s : DraftStore) → All IsWhole s.drafts → Mirrors (flush true s)
unfolding flush drafts_of_file get_field
flush-Mirrors s h = record { whole = h; same = normalize_all-to_json_all s.drafts h }

-- A change of the store.
pub data Change : Type 0 where
  adds : NewDraft → String → String → Change
  removes : String → Change
  removes_all : String → Change

abbrev after : DraftStore → Change → DraftStore
after s (adds d uuid now) = (add true s d uuid now).0
after s (removes id) = (remove true s id).0
after s (removes_all fp) = (remove_all true s fp).0

unfoldable pub run : DraftStore → List Change → DraftStore
run s [] = s
run s (c ∷ cs) = run (after s c) cs

-- The drafts that are added are whole.
abbrev pub AddsWhole : List Change → Type 0
AddsWhole [] = Unit
AddsWhole (adds d uuid now ∷ cs) = IsWhole (stored_as d uuid now) × AddsWhole cs
AddsWhole (_ ∷ cs) = AddsWhole cs

add-Mirrors :
    (s : DraftStore) (d : NewDraft) (uuid now : String)
    → IsWhole (stored_as d uuid now)
    → Mirrors s
    → Mirrors (add true s d uuid now).0
unfolding add
add-Mirrors s d uuid now whole m =
    let ds = s.drafts ++ stored_as d uuid now ∷ [] in
    flush-Mirrors (record s { drafts = ds }) (All-append IsWhole s.drafts _ m.whole (whole, tt))

remove-Mirrors : (s : DraftStore) (id : String) → Mirrors s → Mirrors (remove true s id).0
unfolding remove
remove-Mirrors s id m =
    let kept : PendingDraft → Bool = λ d. not (d.id == id) in
    elim (Option-cases (get s id)) [
      | inl missing ↦ rw (missing, remove) m
      | inr (d, found) ↦
          rw (found, remove)
            (flush-Mirrors (record s { drafts = filter kept s.drafts })
              (All-filter IsWhole kept s.drafts m.whole))
    ]

remove_all-Mirrors : (s : DraftStore) (fp : String) → Mirrors s → Mirrors (remove_all true s fp).0
unfolding remove_all
remove_all-Mirrors s fp m =
    let kept : PendingDraft → Bool = λ d. not (d.fp == fp) in
    let ds = filter kept s.drafts in
    let whole : All IsWhole ds = All-filter IsWhole kept s.drafts m.whole in
    elim (Bool-cases (eqb (length ds) (length s.drafts))) [
      | inl unchanged ↦ rw unchanged (record {
        whole = whole;
        same = m.same ∙ sym (filter_of_length kept s.drafts ((eqb_iff _ _).0 unchanged));
      })
      | inr changed ↦ rw changed (flush-Mirrors (record s { drafts = ds }) whole)
    ]

run-Mirrors : (s : DraftStore) (cs : List Change) → AddsWhole cs → Mirrors s → Mirrors (run s cs)
unfolding run
run-Mirrors s [] whole m = m
run-Mirrors s (adds d uuid now ∷ cs) whole m =
    run-Mirrors (after s (adds d uuid now)) cs whole.1 (add-Mirrors s d uuid now whole.0 m)
run-Mirrors s (removes id ∷ cs) whole m =
    run-Mirrors (after s (removes id)) cs whole (remove-Mirrors s id m)
run-Mirrors s (removes_all fp ∷ cs) whole m =
    run-Mirrors (after s (removes_all fp)) cs whole (remove_all-Mirrors s fp m)

-- Nothing is lost in a restart. Load the store from a file with any content, make any changes, and
-- load it again: if every write is carried out and every added draft is whole, the drafts are the
-- same as before the second load.
pub load-run :
    (s : DraftStore) (cs : List Change)
    → AddsWhole cs
    → (load (run (load s) cs)).drafts ≡ (run (load s) cs).drafts
unfolding load
load-run s cs whole = (run-Mirrors (load s) cs whole (load-Mirrors s)).same
