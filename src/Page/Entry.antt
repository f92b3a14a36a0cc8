-- ===== src/Page/Entry.antt =====
-- dsh/packages/dsh/src/client/page-state.ts: the messages of a thread and how they come to be.
use soulnet.Prelude.{ℕ, String, Bool, true, false, ◌||◌, Option, none, some, List, [], ◌==◌, get_or}
use soulnet.Prelude.{if◌then◌else◌}
use soulnet.FriendSettings.{over}
use soulnet.Inbox.Frames.{ApiEntry}

-- `auto` is absent or true.
pub record ThreadEntry : Type 0 where
  pub seq : ℕ
  pub outgoing : Bool
  pub id : String
  pub body : String
  pub ts : ℕ
  pub from : Option String
  pub type : Option String
  pub auto : Bool
  pub by : Option String
  pub agent : Option String
  pub status : Option String
  pub artifact_name : Option String
  pub client_id : Option String
  pub error : Option String

pub record ThreadState : Type 0 where
  pub entries : List ThreadEntry
  pub window : ℕ
  pub complete : Bool
  pub loading : Bool
  pub loaded : Bool
  pub error : Option String

abbrev pub empty_thread : ThreadState
empty_thread = record {
  entries = [];
  window = 0;
  complete = false;
  loading = false;
  loaded = false;
  error = none;
}

abbrev pub entry_from_api : ApiEntry → ThreadEntry
entry_from_api e = record {
  seq = e.seq;
  outgoing = e.outgoing;
  id = e.id;
  body = e.body;
  ts = e.ts;
  from = e.from;
  type = e.type;
  auto = get_or e.auto false;
  by = e.by;
  agent = e.agent;
  status = e.status;
  artifact_name = e.artifact_name;
  client_id = none;
  error = none;
}

-- `{ ...previous, ...entry }`, with the client id of `previous` if it has one
abbrev pub absorbed : ThreadEntry → ThreadEntry → ThreadEntry
absorbed previous entry = record {
  seq = entry.seq;
  outgoing = entry.outgoing;
  id = entry.id;
  body = entry.body;
  ts = entry.ts;
  from = over entry.from previous.from;
  type = over entry.type previous.type;
  auto = entry.auto || previous.auto;
  by = over entry.by previous.by;
  agent = over entry.agent previous.agent;
  status = over entry.status previous.status;
  artifact_name = over entry.artifact_name previous.artifact_name;
  client_id = over previous.client_id entry.client_id;
  error = over entry.error previous.error;
}

-- A message of an event: an empty sender or agent is as absent.
pub record InboundMessage : Type 0 where
  pub id : String
  pub from : Option String
  pub body : String
  pub ts : ℕ
  pub seq : Option ℕ
  pub type : Option String
  pub auto : Option Bool
  pub by : Option String
  pub agent : Option String
  pub artifact_name : Option String

abbrev not_empty : Option String → Option String
not_empty none = none
not_empty (some s) = if s == "" then none else some s

abbrev pub inbound_entry : InboundMessage → ThreadEntry
inbound_entry m = record {
  seq = get_or m.seq 0;
  outgoing = false;
  id = m.id;
  body = m.body;
  ts = m.ts;
  from = not_empty m.from;
  type = m.type;
  auto = get_or m.auto false;
  by = m.by;
  agent = not_empty m.agent;
  status = none;
  artifact_name = m.artifact_name;
  client_id = none;
  error = none;
}

-- The owner pressed Send.
abbrev pub optimistic : String → String → ℕ → ThreadEntry
optimistic client_id body ts = record {
  seq = 0;
  outgoing = true;
  id = client_id;
  body = body;
  ts = ts;
  from = none;
  type = none;
  auto = false;
  by = none;
  agent = none;
  status = some "sending";
  artifact_name = none;
  client_id = some client_id;
  error = none;
}
