-- ===== src/Alter/Chat.antt =====
-- dsh/packages/dsh/src/alter-state.ts: `chatFromEvents`, the transcript of the alter's session.
-- `JSON.parse` and the regular expression of a revision are the host's.
pub mod Thinking
pub mod Step
pub mod Rows
pub mod Rounds
pub mod Log
pub mod Calls
use soulnet.Prelude.{
  ℕ, ◌+◌, zero, suc, String, Bool, true, false, not, ◌&&◌, ◌||◌, Option, none, some,
}
use soulnet.Prelude.{List, [], ◌∷◌, ◌++◌, ◌==◌, if◌then◌else◌, is_some, get_or, get_elem?, length}
use soulnet.Prelude.Int.{ℤ, pos}
use soulnet.Prelude.Text.{◌⧺◌}
use soulnet.Prelude.Dict.{Dict}
use soulnet.Alter.Latest.{SendOutcome}

-- The two further captures of a revision: the name and the fingerprint of the friend.
pub record Revise : Type 0 where
  pub name : String
  pub fp : String

pub record OwnerItem : Type 0 where
  pub key : String
  pub ts : ℤ
  pub text : String
  pub revise : Option Revise

pub record AlterItem : Type 0 where
  pub key : String
  pub ts : ℤ
  pub text : String
  pub turn : ℤ

pub record InboundItem : Type 0 where
  pub key : String
  pub ts : ℤ
  pub fp : String
  pub name : String
  pub id : String
  pub body : String
  pub auto : Bool
  pub type : Option String
  pub gid : Option String

pub record SendItem : Type 0 where
  pub key : String
  pub ts : ℤ
  pub fp : String
  pub body : String
  pub outcome : Option SendOutcome
  pub gate : Option String
  pub draft_id : Option String
  pub detail : Option String
  pub auto : Bool

pub record NoteItem : Type 0 where
  pub key : String
  pub ts : ℤ
  pub note : String
  pub fp : String
  pub text : String
  pub draft_id : Option String

pub record TurnFailedItem : Type 0 where
  pub key : String
  pub ts : ℤ
  pub turn : ℤ
  pub reason : String
  pub message : Option String

pub record ThinkingItem : Type 0 where
  pub key : String
  pub ts : ℤ
  pub text : String
  pub streaming : Option Bool

pub record ToolItem : Type 0 where
  pub key : String
  pub ts : ℤ
  pub name : String
  pub args : String

pub data AlterChatItem : Type 0 where
  owner : OwnerItem → AlterChatItem
  alter : AlterItem → AlterChatItem
  inbound : InboundItem → AlterChatItem
  send : SendItem → AlterChatItem
  note : NoteItem → AlterChatItem
  turn_failed : TurnFailedItem → AlterChatItem
  thinking : ThinkingItem → AlterChatItem
  tool : ToolItem → AlterChatItem

abbrev pub key_of_item : AlterChatItem → String
key_of_item (owner i) = i.key
key_of_item (alter i) = i.key
key_of_item (inbound i) = i.key
key_of_item (send i) = i.key
key_of_item (note i) = i.key
key_of_item (turn_failed i) = i.key
key_of_item (thinking i) = i.key
key_of_item (tool i) = i.key

-- The variables of the fold: `send_index` is `sendIndexByCall`, `thinking_index` is
-- `thinkingIndexByPhase`.
pub record Chat : Type 0 where
  pub items : List AlterChatItem
  pub send_index : Dict ℕ
  pub thinking_index : Dict ℕ
  pub running : Bool
  pub turn : ℤ

pub record AlterChat : Type 0 where
  pub items : List AlterChatItem
  pub running : Bool
  pub seq : ℕ

-- `items[i] = f(items[i]!)`
abbrev pub update_at : ℕ → (AlterChatItem → AlterChatItem) → List AlterChatItem → List AlterChatItem
update_at i f [] = []
update_at zero f (x ∷ xs) = f x ∷ xs
update_at (suc i) f (x ∷ xs) = x ∷ update_at i f xs

-- `items.push(item)`
abbrev pub push : AlterChatItem → Chat → Chat
push item c = record c { items = c.items ++ item ∷ [] }

abbrev pub amend : ℕ → (AlterChatItem → AlterChatItem) → Chat → Chat
amend i f c = record c { items = update_at i f c.items }
