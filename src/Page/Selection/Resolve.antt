-- ===== src/Page/Selection/Resolve.antt =====
-- What `resolveSelection` answers.
use soulnet.Prelude.{String, true, false, Option, none, some, ◌==◌, ◌≡◌, refl}
use soulnet.Prelude.{◌⊎◌, inl, inr, sym, ap, ◌∙◌, eq_refl}
use soulnet.Prelude.{Option-cases, Bool-cases}
use Prim.Native.Char.{Char}
use Prim.Native.String.append
use soulnet.Page.Selection.{
  alter_key, strip_prefix, group_prefix, agent_prefix, group_key, agent_key, gid_of, agent_of, Rows,
  member, resolve_selection,
}

-- The rows that stand on the page: the alter, a group I am in, an agent of mine, or a friend.
pub data Shows (rows : Rows) : String → Type 0 where
  the_alter : Shows rows alter_key
  a_group :
      (gid key : String)
      → gid_of (some key) ≡ some gid
      → member gid rows.groups ≡ true
      → Shows rows key
  an_agent :
      (name key : String)
      → agent_of (some key) ≡ some name
      → member name rows.agents ≡ true
      → Shows rows key
  a_friend : (fp : String) → member fp rows.friends ≡ true → Shows rows fp

-- The row that is answered stands on the page, and it is the one asked for or the alter.
resolve_selection-Or :
    (rows : Rows) (key : String)
    → Shows rows (resolve_selection rows (some key))
      × ((resolve_selection rows (some key) ≡ key)
          ⊎ (resolve_selection rows (some key) ≡ alter_key))
unfolding resolve_selection
resolve_selection-Or rows key = elim (Bool-cases (key == alter_key)) [
  | inl t ↦ rw t (the_alter, inr refl)
  | inr not_alter ↦ elim (Option-cases (gid_of (some key))) [
    | inr (gid, g) ↦ elim (Bool-cases (member gid rows.groups)) [
      | inl t ↦ rw (not_alter, g, t) (a_group gid key g t, inl refl)
      | inr f ↦ rw (not_alter, g, f) (the_alter, inr refl)
    ]
    | inl g ↦ elim (Option-cases (agent_of (some key))) [
      | inr (name, a) ↦ elim (Bool-cases (member name rows.agents)) [
        | inl t ↦ rw (not_alter, g, a, t) (an_agent name key a t, inl refl)
        | inr f ↦ rw (not_alter, g, a, f) (the_alter, inr refl)
      ]
      | inl a ↦ elim (Bool-cases (member key rows.friends)) [
        | inl t ↦ rw (not_alter, g, a, t) (a_friend key t, inl refl)
        | inr f ↦ rw (not_alter, g, a, f) (the_alter, inr refl)
      ]
    ]
  ]
]

-- The page always shows a row that stands there, whatever was selected before, and what it shows
-- stays selected when it is resolved again.
pub resolve_selection-Shows :
    (rows : Rows) (selected : Option String)
    → Shows rows (resolve_selection rows selected)
      × (resolve_selection rows (some (resolve_selection rows selected))
          ≡ resolve_selection rows selected)
unfolding resolve_selection
resolve_selection-Shows rows none = (the_alter, refl)
resolve_selection-Shows rows (some key) =
    let (shown, which) = resolve_selection-Or rows key in
    (
      shown,
      elim which [
        | inl same ↦ ap (λ k. resolve_selection rows (some k)) same
        | inr alter ↦ ap (λ k. resolve_selection rows (some k)) alter ∙ sym alter
      ],
    )

strip_prefix-append : (p s : String) → strip_prefix p (Prim.Native.String.◌++◌ p s) ≡ some s
unfolding strip_prefix
strip_prefix-append String.[] s = rw (append.nil s)
strip_prefix-append (String.◌∷◌ c p) s =
    rw (append.cons c p s, eq_refl (String.◌∷◌ c String.[])) (strip_prefix-append p s)

strip_prefix-other :
    (c d : Char) (p q s : String)
    → (String.◌∷◌ c String.[] == String.◌∷◌ d String.[]) ≡ false
    → strip_prefix (String.◌∷◌ c p) (Prim.Native.String.◌++◌ (String.◌∷◌ d q) s) ≡ none
unfolding strip_prefix
strip_prefix-other c d p q s h = rw (append.cons d q s, h)

-- The key of a group names that group and no agent, and the key of an agent that agent and no group.
pub gid_of-group_key :
    (s : String)
    → (gid_of (some (group_key s)) ≡ some s)
      × (agent_of (some (group_key s)) ≡ none)
      × (agent_of (some (agent_key s)) ≡ some s)
      × (gid_of (some (agent_key s)) ≡ none)
unfolding gid_of agent_of group_key agent_key strip_prefix
gid_of-group_key s = (
  strip_prefix-append group_prefix s,
  strip_prefix-other _ _ ":" _ s refl,
  strip_prefix-append agent_prefix s,
  strip_prefix-other _ _ ":" _ s refl,
)
