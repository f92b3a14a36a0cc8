-- ===== src/Page/Selection.antt =====
-- dsh/packages/dsh/src/client/page-state.ts: which row of the page is selected, by a key that says
-- its kind, and the tabs of that kind.
pub mod Resolve
use soulnet.Prelude.{String, Bool, true, false, Option, none, some, List, [], ◌∷◌, ◌==◌}
use soulnet.Prelude.{if◌then◌else◌, any, is_some}
use soulnet.Inbox.{ApiFriend, ApiGroup}

abbrev pub alter_key : String
alter_key = "alter"

-- `s.startsWith(prefix) ? s.slice(prefix.length) : undefined`
unfoldable pub strip_prefix : String → String → Option String
strip_prefix String.[] s = some s
strip_prefix (String.◌∷◌ c p) String.[] = none
strip_prefix (String.◌∷◌ c p) (String.◌∷◌ d s) =
    let rest = strip_prefix p s in
    if String.◌∷◌ c String.[] == String.◌∷◌ d String.[] then rest else none

abbrev pub group_prefix : String
group_prefix = "g:"

abbrev pub agent_prefix : String
agent_prefix = "a:"

unfoldable pub group_key : String → String
group_key gid = Prim.Native.String.◌++◌ group_prefix gid

unfoldable pub agent_key : String → String
agent_key name = Prim.Native.String.◌++◌ agent_prefix name

unfoldable pub gid_of : Option String → Option String
unfolding strip_prefix
gid_of none = none
gid_of (some selected) = strip_prefix group_prefix selected

unfoldable pub agent_of : Option String → Option String
unfolding strip_prefix
agent_of none = none
agent_of (some selected) = strip_prefix agent_prefix selected

-- The rows that can be selected: the fingerprints of the friends, the ids of the groups and the
-- names of the agents.
pub record Rows : Type 0 where
  pub friends : List String
  pub groups : List String
  pub agents : List String

abbrev pub member : String → List String → Bool
member s xs = any (λ x. x == s) xs

unfoldable pub resolve_selection : Rows → Option String → String
unfolding gid_of agent_of
resolve_selection rows none = alter_key
resolve_selection rows (some selected) =
    if selected == alter_key then alter_key else (elim (gid_of (some selected)) [
      | some gid ↦ if member gid rows.groups then selected else alter_key
      | none ↦ elim (agent_of (some selected)) [
        | some agent ↦ if member agent rows.agents then selected else alter_key
        | none ↦ if member selected rows.friends then selected else alter_key
      ]
    ])

pub data SelectionKind : Type 0 where
  alter friend group agent : SelectionKind

unfoldable pub kind_of : Option String → SelectionKind
unfolding gid_of agent_of
kind_of none = alter
kind_of (some selected) =
    if selected == alter_key
    then alter
    else (if is_some (gid_of (some selected))
        then group
        else (if is_some (agent_of (some selected)) then agent else friend))

pub data PaneTab : Type 0 where
  chat announce home members admin info settings memory : PaneTab

unfoldable pub tabs_for : SelectionKind → Bool → List PaneTab
tabs_for alter can_admin = chat ∷ home ∷ memory ∷ settings ∷ []
tabs_for friend can_admin = chat ∷ home ∷ memory ∷ []
tabs_for group can_admin =
    if can_admin
    then chat ∷ announce ∷ home ∷ memory ∷ members ∷ admin ∷ []
    else chat ∷ announce ∷ home ∷ memory ∷ members ∷ []
tabs_for agent can_admin = chat ∷ memory ∷ info ∷ []

abbrev pub default_pane_tab : PaneTab
default_pane_tab = chat
