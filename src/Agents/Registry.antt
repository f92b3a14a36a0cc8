-- ===== src/Agents/Registry.antt =====
-- AgentRegistryStore over any calls and any edits of its file, and its reads behind a write.
use soulnet.Prelude.{eqb, String, Bool, true, false, not, Option, none, some, arith}
use soulnet.Prelude.{
  List, [], ◌∷◌, ◌++◌, ◌==◌, if◌then◌else◌, find, filter, any, is_some, All-filter, length,
}
use soulnet.Prelude.{Bool-cases, Option-cases, inl, inr, eq_iff}
use soulnet.Prelude.{◌≡◌, refl, sym, ◌∙◌, subst}
use soulnet.Prelude.Text.{trim}
use soulnet.Json.{Json, at_key, array_of}
use soulnet.Agents.{
  SeatAgent, agent_name_error, normalize_agent, key_of, normalize_step, normalize_loop, normalize,
  agent_to_json, AgentRegistryStore, at, persist, replace_first, load, has_key, get, stored, set,
  remove,
}
use soulnet.Agents.Names.{
  keys, IsValid, AreNamed, any-keys, keys-append, normalize_agent-IsValid, push-AreNamed,
  stored-AreNamed, Unrepeated-filter,
}

-- A call of the store, or an edit of its file from outside.
pub data Call : Type 0 where
  call_load : Call
  call_set : Bool → SeatAgent → Call
  call_remove : Bool → String → Call
  file_edited : Option Json → Call

module _ (to_lower_case : String → String) where
  -- The keys seen are those of the agents so far.
  record IsSeen (acc : List SeatAgent × List String) : Type 0 where
    seen : acc.1 ≡ keys to_lower_case acc.0
    named : AreNamed to_lower_case acc.0

  normalize_step-IsSeen :
      (acc : List SeatAgent × List String) (item : Json)
      → IsSeen acc
      → IsSeen (normalize_step to_lower_case acc item)
  unfolding normalize_step
  normalize_step-IsSeen (out, seen) item h =
      elim (Option-cases (normalize_agent to_lower_case item)) [
        | inl bad ↦ simp (normalize_step, bad) h
        | inr (a, good) ↦
            let key = key_of to_lower_case a in
            elim (Bool-cases (any (λ k. k == key) seen)) [
              | inl twice ↦ simp (normalize_step, good, twice) h
              | inr new ↦
                  let missing =
                    sym (any-keys to_lower_case key out)
                    ∙ subst (λ l. any (λ k. k == key) l ≡ false) h.seen new in
                  simp (normalize_step, good, new)
                    (record {
                      seen = rw h.seen (sym (keys-append to_lower_case out (a ∷ [])));
                      named =
                          push-AreNamed to_lower_case out a h.named
                            (normalize_agent-IsValid to_lower_case item a good) missing;
                    })
            ]
      ]

  normalize_loop-IsSeen :
      (acc : List SeatAgent × List String) (items : List Json)
      → IsSeen acc
      → IsSeen (normalize_loop to_lower_case acc items)
  unfolding normalize_loop
  normalize_loop-IsSeen acc [] h = h
  normalize_loop-IsSeen acc (item ∷ items) h =
      normalize_loop-IsSeen (normalize_step to_lower_case acc item) items
        (normalize_step-IsSeen acc item h)

  no_agents : AreNamed to_lower_case []
  no_agents = record { valid = tt; unique = tt }

  load-AreNamed : (s : AgentRegistryStore) → AreNamed to_lower_case (load to_lower_case s).agents
  unfolding load normalize
  load-AreNamed s = elim (Option-cases s.file) [
    | inl gone ↦ simp (load, gone) no_agents
    | inr (raw, held) ↦
        simp (load, held)
          (normalize_loop-IsSeen ([], []) (array_of (at_key "agents" (some raw)))
            (record { seen = refl; named = no_agents })).named
  ]

  persist-agents : (written : Bool) (s : AgentRegistryStore) → (persist written s).agents ≡ s.agents
  unfolding persist
  persist-agents true s = refl
  persist-agents false s = refl

  set-AreNamed :
      (written : Bool) (input : SeatAgent) (s : AgentRegistryStore)
      → AreNamed to_lower_case s.agents
      → AreNamed to_lower_case (set to_lower_case written input s).0.agents
  unfolding set
  set-AreNamed written input s named =
      elim (Bool-cases (is_some (agent_name_error to_lower_case input.name))) [
        | inl bad ↦ simp bad named
        | inr good ↦ elim (Option-cases (normalize_agent to_lower_case (agent_to_json input))) [
          | inl refused ↦ simp (set, good, refused) named
          | inr (new, kept) ↦
              simp (set, good, kept)
                (rw
                  (persist-agents written (record s { agents = stored to_lower_case new s.agents }))
                  (stored-AreNamed to_lower_case new s.agents
                    (normalize_agent-IsValid to_lower_case (agent_to_json input) new kept) named))
        ]
      ]

  remove-AreNamed :
      (written : Bool) (name : String) (s : AgentRegistryStore)
      → AreNamed to_lower_case s.agents
      → AreNamed to_lower_case (remove to_lower_case written name s).0.agents
  unfolding remove
  remove-AreNamed written name s named =
      let p : SeatAgent → Bool = λ a. not (has_key to_lower_case (to_lower_case (trim name)) a) in
      let kept : AreNamed to_lower_case (filter p s.agents) = record {
        valid = All-filter (IsValid to_lower_case) p s.agents named.valid;
        unique = Unrepeated-filter to_lower_case p s.agents named.unique;
      } in
      elim (Bool-cases (eqb (length (filter p s.agents)) (length s.agents))) [
        | inl none_gone ↦ simp none_gone kept
        | inr gone ↦
            simp gone (rw (persist-agents written (record s { agents = filter p s.agents })) kept)
      ]

  unfoldable pub step : Call → AgentRegistryStore → AgentRegistryStore
  step call_load s = load to_lower_case s
  step (call_set written input) s = (set to_lower_case written input s).0
  step (call_remove written name) s = (remove to_lower_case written name s).0
  step (file_edited file) s = record s { file = file }

  unfoldable pub run : AgentRegistryStore → List Call → AgentRegistryStore
  unfolding step
  run s [] = s
  run s (c ∷ cs) = run (step c s) cs

  step-AreNamed :
      (c : Call) (s : AgentRegistryStore)
      → AreNamed to_lower_case s.agents
      → AreNamed to_lower_case (step c s).agents
  unfolding step
  step-AreNamed call_load s named = load-AreNamed s
  step-AreNamed (call_set written input) s named = set-AreNamed written input s named
  step-AreNamed (call_remove written name) s named = remove-AreNamed written name s named
  step-AreNamed (file_edited file) s named = named

  run_from-AreNamed :
      (s : AgentRegistryStore) (cs : List Call)
      → AreNamed to_lower_case s.agents
      → AreNamed to_lower_case (run s cs).agents
  unfolding run
  run_from-AreNamed s [] named = named
  run_from-AreNamed s (c ∷ cs) named = run_from-AreNamed (step c s) cs (step-AreNamed c s named)

  -- After any calls, whatever is written into the file from outside and whichever writes fail, every
  -- agent has a name that `agentNameError` accepts, and no two agents have the same name in lower
  -- case.
  pub run-AreNamed :
      (file : Option Json) (cs : List Call) → AreNamed to_lower_case (run (at file) cs).agents
  run-AreNamed file cs = run_from-AreNamed (at file) cs no_agents

  find-replace_first :
      (k : String) (new : SeatAgent) (agents : List SeatAgent)
      → any (has_key to_lower_case (key_of to_lower_case new)) agents ≡ true
      → find
          (has_key to_lower_case k)
          (replace_first (has_key to_lower_case (key_of to_lower_case new)) new agents)
        ≡ (if key_of to_lower_case new == k
            then some new
            else find (has_key to_lower_case k) agents)
  find-replace_first k new [] h = absurd (ground (arith, h))
  find-replace_first k new (a ∷ agents) h =
      let old = key_of to_lower_case a in
      let key = key_of to_lower_case new in
      elim (Bool-cases (old == key)) [
        | inl same ↦
            let e : old == k ≡ key == k = rw ((eq_iff old key).0 same) refl in
            rw (same, e) (ground arith)
        | inr other ↦
            let ih = find-replace_first k new agents (ground (arith, h, other)) in
            rw (other, ih) (ground (arith, other, eq_iff old key, eq_iff old k, eq_iff key k))
      ]

  find-push :
      (k : String) (new : SeatAgent) (agents : List SeatAgent)
      → any (has_key to_lower_case (key_of to_lower_case new)) agents ≡ false
      → find (has_key to_lower_case k) (agents ++ new ∷ []) ≡ (
          if key_of to_lower_case new == k then some new else find (has_key to_lower_case k) agents)
  find-push k new [] h = refl
  find-push k new (a ∷ agents) h =
      let old = key_of to_lower_case a in
      let key = key_of to_lower_case new in
      let ih = find-push k new agents (ground (arith, h)) in
      rw ih (ground (arith, h, eq_iff old key, eq_iff old k, eq_iff key k))

  find-stored :
      (k : String) (new : SeatAgent) (agents : List SeatAgent)
      → find (has_key to_lower_case k) (stored to_lower_case new agents) ≡ (
          if key_of to_lower_case new == k then some new else find (has_key to_lower_case k) agents)
  unfolding stored
  find-stored k new agents =
      elim (Bool-cases (any (has_key to_lower_case (key_of to_lower_case new)) agents)) [
        | inl there ↦ rw there (find-replace_first k new agents there)
        | inr missing ↦ rw missing (find-push k new agents missing)
      ]

  -- A `set` whose name is accepted makes every later `get`, in any case and with spaces around the
  -- name, answer the normalized record where the name is that of the record, and for every other name
  -- what it answered before, also when the file cannot be written.
  pub get-set :
      (written : Bool) (input new : SeatAgent) (s : AgentRegistryStore) (name : String)
      → agent_name_error to_lower_case input.name ≡ none
      → normalize_agent to_lower_case (agent_to_json input) ≡ some new
      → get to_lower_case (set to_lower_case written input s).0 name ≡ (
          if key_of to_lower_case new == to_lower_case (trim name)
          then some new
          else get to_lower_case s name)
  unfolding set get
  get-set written input new s name good kept =
      simp (set, good, kept)
        (rw (persist-agents written (record s { agents = stored to_lower_case new s.agents }))
          (find-stored (to_lower_case (trim name)) new s.agents))
