-- ===== src/Agents/Tests.antt =====
-- The theorems about the registry of agents at concrete calls: a file that repeats a name in another
-- case, an agent that is set twice, and one that is removed.
use soulnet.Prelude.{String, true, false, none, some, [], ◌∷◌, ◌==◌, ◌≡◌, refl, if◌then◌else◌}
use soulnet.Prelude.Text.{trim, trim_start, trim_end}
use soulnet.Json.{
  Json, str, obj, arr, cons, nil, field, end, at_key, key_of, get_field, text_of, is_true,
}
use soulnet.Agents.{SeatAgent, at, agent_name_error, normalize_agent, agent_to_json, get, set}
use soulnet.Agents.Names.{AreNamed}
use soulnet.Agents.Registry.{
  call_load, call_set, call_remove, file_edited, run, run-AreNamed, get-set,
}

-- `toLowerCase`, of the names that occur
abbrev lower : String → String
lower s = if s == "DevBot" then "devbot" else s

abbrev dev_bot : SeatAgent
dev_bot = record {
  name = "DevBot";
  preset = none;
  cwd = some "/repo";
  prompt = none;
  approval = none;
}

abbrev file : Json
file = obj (
    field "agents"
      (arr (
        cons (obj (field "name" (str "DevBot") end))
          (cons (obj (field "name" (str "devbot") end)) nil)))
      end)

run-AreNamed_example :
    AreNamed lower
      (run lower (at (some file)) (
        call_load
        ∷ call_set true dev_bot
        ∷ call_remove true "devbot"
        ∷ file_edited none
        ∷ call_load
        ∷ [])).agents
run-AreNamed_example = run-AreNamed lower (some file) (
    call_load
    ∷ call_set true dev_bot
    ∷ call_remove true "devbot"
    ∷ file_edited none
    ∷ call_load
    ∷ [])

accepted : agent_name_error lower "DevBot" ≡ none
unfolding agent_name_error trim trim_start trim_end
accepted = refl

normal : normalize_agent lower (agent_to_json dev_bot) ≡ some dev_bot
unfolding normalize_agent agent_name_error trim trim_start trim_end at_key key_of get_field text_of
    is_true
normal = refl

get-set_example :
    get lower (set lower false dev_bot (at none)).0 " devbot"
    ≡ (if "devbot" == lower (trim " devbot") then some dev_bot else get lower (at none) " devbot")
get-set_example = get-set lower false dev_bot dev_bot (at none) " devbot" accepted normal
