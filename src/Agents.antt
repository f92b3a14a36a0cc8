-- ===== src/Agents.antt =====
-- dsh/packages/dsh/src/agent-registry.ts: the named agents of a seat, with their file. A call that
-- throws answers `none`; whether a write of the file goes through is the argument `written`.
pub mod Names
pub mod Registry
mod Tests
use Prim.Native.Char.{Char, code}
use soulnet.Prelude.{
  ℕ, ◌+◌, leb, ltb, eqb, String, Bool, true, false, not, ◌&&◌, ◌||◌, Option, none, some,
}
use soulnet.Prelude.{
  List, [], ◌∷◌, ◌++◌, ◌==◌, if◌then◌else◌, find, filter, any, map, is_some, length,
}
use soulnet.Prelude.Text.{◌⧺◌, is_space, trim, slice}
use soulnet.Json.{
  Json, null, bool, str, obj, arr, of_items, of_entries, at_key, text_of, is_true, array_of,
}
use soulnet.Drafts.{unless_empty}

pub record SeatAgent : Type 0 where
  pub name : String
  pub preset : Option String
  pub cwd : Option String
  pub prompt : Option String
  pub approval : Option Bool

-- `s.length`, in UTF-16 code units
abbrev units : String → ℕ
units String.[] = 0
units (String.◌∷◌ c s) = (if leb 0x10000 (code c) then 2 else 1) + units s

abbrev some_char : (Char → Bool) → String → Bool
some_char p String.[] = false
some_char p (String.◌∷◌ c s) = p c || some_char p s

-- `/[\s@·]/`
abbrev breaks_token : Char → Bool
breaks_token c = is_space c || eqb (code c) 64 || eqb (code c) 183

-- `/[\x00-\x1f\x7f]/`
abbrev is_control : Char → Bool
is_control c = leb (code c) 31 || eqb (code c) 127

abbrev reserved : List String
reserved = "all" ∷ "alter" ∷ "owner" ∷ "everyone" ∷ []

module _ (to_lower_case : String → String) where
  unfoldable pub agent_name_error : String → Option String
  agent_name_error name =
      let n = trim name in
      if n == ""
      then some "name must not be empty"
      else (if not (n == name)
          then some "name must not start or end with whitespace"
          else (if ltb 32 (units n)
              then some "name must be at most 32 characters"
              else (if any (λ r. r == to_lower_case n) reserved
                  then some ("\"" ⧺ n ⧺ "\" is reserved")
                  else (if some_char breaks_token n
                      then some "name must not contain whitespace, \"@\" or \"·\""
                      else (if some_char is_control n
                          then some "name must not contain control characters"
                          else none)))))

  unfoldable pub normalize_agent : Json → Option SeatAgent
  unfolding agent_name_error
  normalize_agent value =
      let v = some value in
      let name = trim (text_of (at_key "name" v)) in
      if name == "" || is_some (agent_name_error name)
      then none
      else some (record {
        name = name;
        preset = unless_empty (text_of (at_key "preset" v));
        cwd = unless_empty (text_of (at_key "cwd" v));
        prompt =
            let prompt = trim (text_of (at_key "prompt" v)) in
            if prompt == "" then none else some (slice 8000 prompt);
        approval = if is_true (at_key "approval" v) then some true else none;
      })

  abbrev pub key_of : SeatAgent → String
  key_of a = to_lower_case a.name

  -- One round of `normalize`: the agents so far, and the keys seen.
  unfoldable pub normalize_step : List SeatAgent × List String → Json → List SeatAgent × List String
  unfolding normalize_agent
  normalize_step (out, seen) item = elim (normalize_agent item) [
    | none ↦ (out, seen)
    | some agent ↦
        if any (λ k. k == key_of agent) seen
        then (out, seen)
        else (out ++ agent ∷ [], seen ++ key_of agent ∷ [])
  ]

  unfoldable pub normalize_loop :
      List SeatAgent × List String → List Json → List SeatAgent × List String
  unfolding normalize_step
  normalize_loop acc [] = acc
  normalize_loop acc (item ∷ items) = normalize_loop (normalize_step acc item) items

  unfoldable pub normalize : Json → List SeatAgent
  unfolding normalize_loop
  normalize raw = (normalize_loop ([], []) (array_of (at_key "agents" (some raw)))).0

abbrev pub text_entry : String → Option String → List (String × Json)
text_entry key none = []
text_entry key (some s) = (key, str s) ∷ []

abbrev pub flag_entry : String → Option Bool → List (String × Json)
flag_entry key none = []
flag_entry key (some b) = (key, bool b) ∷ []

-- An agent as the object that it is.
abbrev pub agent_to_json : SeatAgent → Json
agent_to_json a = obj (
    of_entries (
      ("name", str a.name) ∷ text_entry "preset" a.preset
      ++ text_entry "cwd" a.cwd
      ++ text_entry "prompt" a.prompt
      ++ flag_entry "approval" a.approval))

pub record AgentRegistryStore : Type 0 where
  pub agents : List SeatAgent
  pub loaded : Bool
  pub file : Option Json

abbrev pub at : Option Json → AgentRegistryStore
at file = record { agents = []; loaded = false; file = file }

unfoldable pub persist : Bool → AgentRegistryStore → AgentRegistryStore
persist written s =
    if written
    then record s {
      file = some (obj (of_entries (("agents", arr (of_items (map agent_to_json s.agents))) ∷ [])));
    }
    else s

-- `this.agents[at] = record`, at the first agent that passes the test
abbrev pub replace_first : (SeatAgent → Bool) → SeatAgent → List SeatAgent → List SeatAgent
replace_first p new [] = []
replace_first p new (a ∷ agents) =
    let rest = replace_first p new agents in if p a then new ∷ agents else a ∷ rest

module _ (to_lower_case : String → String) where
  unfoldable pub load : AgentRegistryStore → AgentRegistryStore
  unfolding normalize
  load s = elim s.file [
    | none ↦ record s { agents = []; loaded = true }
    | some raw ↦ record s { agents = normalize to_lower_case raw; loaded = true }
  ]

  abbrev pub has_key : String → SeatAgent → Bool
  has_key key a = key_of to_lower_case a == key

  unfoldable pub get : AgentRegistryStore → String → Option SeatAgent
  unfolding trim
  get s name = find (has_key (to_lower_case (trim name))) s.agents

  -- the agents behind a `set` of a record
  unfoldable pub stored : SeatAgent → List SeatAgent → List SeatAgent
  stored new agents =
      let key = key_of to_lower_case new in
      if any (has_key key) agents
      then replace_first (has_key key) new agents
      else agents ++ new ∷ []

  unfoldable pub set : Bool → SeatAgent → AgentRegistryStore → AgentRegistryStore × Option SeatAgent
  unfolding agent_name_error normalize_agent stored persist
  set written input s =
      if is_some (agent_name_error to_lower_case input.name)
      then (s, none)
      else elim (normalize_agent to_lower_case (agent_to_json input)) [
        | none ↦ (s, none)
        | some new ↦ (
          persist written (record s { agents = stored new s.agents }),
          if written then some new else none,
        )
      ]

  -- The answer is none where the write throws.
  unfoldable pub remove : Bool → String → AgentRegistryStore → AgentRegistryStore × Option Bool
  unfolding trim persist
  remove written name s =
      let key = to_lower_case (trim name) in
      let kept = filter (λ a. not (has_key key a)) s.agents in
      if eqb (length kept) (length s.agents)
      then (record s { agents = kept }, some false)
      else (persist written (record s { agents = kept }), if written then some true else none)
