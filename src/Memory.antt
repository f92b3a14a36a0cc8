-- ===== src/Memory.antt =====
-- dsh/packages/dsh/src/memory/store.ts: what the alter remembers. Here the records, the scopes that
-- say who may see one, and the cutting of a text into the words of the full-text index.
pub mod Store
pub mod Recall
pub mod Sight
pub mod Index
pub mod Kept
pub mod Cut
pub mod Runs
pub mod Add
mod Tests
use Prim.Native.Char.{Char, code}
use soulnet.Prelude.{
  ℕ, leb, ltb, eqb, String, Bool, true, false, not, ◌&&◌, ◌||◌, Option, none, some,
}
use soulnet.Prelude.{List, [], ◌∷◌, ◌++◌, ◌==◌, if◌then◌else◌, get_or}
use soulnet.Prelude.Int.{ℤ, pos, negsuc}
use soulnet.Prelude.Text.{◌⧺◌, join}

pub data MemoryKind : Type 0 where
  fact preference summary decision promise : MemoryKind

pub data MemoryScope : Type 0 where
  global : MemoryScope
  agent shared_friend shared_group : String → MemoryScope

pub data Origin : Type 0 where
  auto manual : Origin

pub record NewMemory : Type 0 where
  pub kind : MemoryKind
  pub content : String
  pub scope : MemoryScope
  pub source_ch : String
  pub source_ref : Option String
  pub weight : Option ℤ
  pub origin : Option Origin

pub record MemoryRecord : Type 0 where
  pub id : ℕ
  pub uid : String
  pub kind : MemoryKind
  pub content : String
  pub scope : MemoryScope
  pub source_ch : String
  pub source_ref : String
  pub weight : ℤ
  pub origin : Origin
  pub created_at : ℕ
  pub last_hit_at : Option ℕ
  pub hit_count : ℕ

pub record AllowScopes : Type 0 where
  pub global : Option Bool
  pub agent : Option String
  pub friend : Option String
  pub group : Option String

-- `/[\u4e00-\u9fff]/`
abbrev is_cjk : Char → Bool
is_cjk c = leb 0x4e00 (code c) && leb (code c) 0x9fff

-- `/[a-zA-Z0-9]/`
abbrev is_word : Char → Bool
is_word c =
    leb 97 (code c) && leb (code c) 122
    || leb 65 (code c) && leb (code c) 90
    || leb 48 (code c) && leb (code c) 57

abbrev one : Char → String
one c = String.◌∷◌ c String.[]

abbrev pairs : String → List String
pairs String.[] = []
pairs (String.◌∷◌ a String.[]) = []
pairs (String.◌∷◌ a (String.◌∷◌ b rest)) = (one a ⧺ one b) ∷ pairs (String.◌∷◌ b rest)

abbrev flush_cjk : String → List String
flush_cjk (String.◌∷◌ a String.[]) = one a ∷ []
flush_cjk run = pairs run

module _ (to_lower_case : String → String) where
  abbrev flush_word : String → List String
  flush_word run = if run == "" then [] else to_lower_case run ∷ []

  -- One round: the words that it gives out, and the two runs behind it.
  abbrev segment_step : Char → String → String → List String × (String × String)
  segment_step c cjk word =
      if is_cjk c
      then (flush_word word, (cjk ⧺ one c, ""))
      else (if is_word c
          then (flush_cjk cjk, ("", word ⧺ one c))
          else (flush_word word ++ flush_cjk cjk, ("", "")))

  abbrev segment_loop : String → String → String → List String
  segment_loop String.[] cjk word = flush_word word ++ flush_cjk cjk
  segment_loop (String.◌∷◌ c text) cjk word =
      let (out, (cjk', word')) = segment_step c cjk word in out ++ segment_loop text cjk' word'

  unfoldable pub segment : String → String
  segment text = join " " (segment_loop text "" "")

abbrev pub scope_kind : MemoryScope → String
scope_kind global = "global"
scope_kind (agent name) = "agent"
scope_kind (shared_friend fp) = "shared-friend"
scope_kind (shared_group gid) = "shared-group"

abbrev pub scope_key : MemoryScope → Option String
scope_key global = none
scope_key (agent name) = some name
scope_key (shared_friend fp) = some fp
scope_key (shared_group gid) = some gid

unfoldable pub decode_scope : String → Option String → MemoryScope
decode_scope kind key =
    if kind == "global"
    then global
    else (if kind == "agent"
        then agent (get_or key "")
        else (if kind == "shared-friend"
            then shared_friend (get_or key "")
            else (if kind == "shared-group" then shared_group (get_or key "") else global)))
