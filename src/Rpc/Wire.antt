-- ===== src/Rpc/Wire.antt =====
-- dsh/packages/dsh/src/network/jsonrpc.ts: the read side of the endpoint, and any sequence of its
-- calls and events.
use soulnet.Prelude.{ℕ, String, Bool, true, false, Option, none, some}
use soulnet.Prelude.{List, [], ◌∷◌, ◌==◌, if◌then◌else◌}
use soulnet.Prelude.Int.{ℤ, pos, negsuc}
use soulnet.Prelude.Text.{◌⧺◌, trim}
use soulnet.Json.{Json, null, num, str, obj, arr, at_key, decimal, num_of}
use soulnet.Rpc.{
  JsonRpcError, Answer, resolved, rejected, Pending, Effect, notified, protocol_error,
  JsonRpcEndpoint, emit, get, settle, close, notify, RequestOptions, request, abort, timeout,
}

-- What JSON.parse does with a line: its value, or the message of what it throws.
pub data Parsed : Type 0 where
  parsed : Json → Parsed
  thrown : String → Parsed

-- `value !== undefined && value !== null`
abbrev pub is_there : Option Json → Bool
is_there none = false
is_there (some null) = false
is_there (some _) = true

-- `typeof frame !== 'object' || frame === null`
abbrev pub is_object : Json → Bool
is_object (obj _) = true
is_object (arr _) = true
is_object _ = false

abbrev string_or : Option Json → String → String
string_or (some (str s)) fallback = s
string_or _ fallback = fallback

abbrev error_of : Json → Pending → JsonRpcError
error_of error entry = record {
  message = string_or (at_key "message" (some error)) (entry.method ⧺ " failed");
  code = num_of (at_key "code" (some error)) (negsuc 32602);
  error_data = at_key "data" (some error);
}

abbrev pub entry_at : ℤ → JsonRpcEndpoint → Option Pending
entry_at (pos id) s = get id s
entry_at (negsuc _) s = none

-- The answer that a frame holds for an entry.
unfoldable pub answer_of : Json → Pending → Answer
answer_of frame entry = elim (at_key "error" (some frame)) [
  | none ↦ resolved (at_key "result" (some frame))
  | some error ↦
      if is_there (some error)
      then rejected (error_of error entry)
      else resolved (at_key "result" (some frame))
]

abbrev pub unknown_id : ℤ → String → Effect
unknown_id id line = protocol_error ("response for unknown request id " ⧺ decimal id) line

-- A response, by the value of its `id`.
unfoldable pub handle_response : String → Json → Option Json → JsonRpcEndpoint → JsonRpcEndpoint
unfolding settle answer_of
handle_response line frame (some (num id)) s = elim (entry_at id s) [
  | none ↦ emit (unknown_id id line) s
  | some entry ↦ settle entry.id (answer_of frame entry) s
]
handle_response line frame _ s = emit (protocol_error "response without a numeric id" line) s

-- A frame that is an object, by the value of its `method`.
unfoldable pub dispatch : String → Json → Option Json → JsonRpcEndpoint → JsonRpcEndpoint
unfolding handle_response
dispatch line frame (some (str method)) s =
    if is_there (at_key "id" (some frame))
    then handle_response line frame (at_key "id" (some frame)) s
    else emit (notified method (at_key "params" (some frame))) s
dispatch line frame _ s = handle_response line frame (at_key "id" (some frame)) s

unfoldable pub handle_frame : String → Json → JsonRpcEndpoint → JsonRpcEndpoint
unfolding dispatch
handle_frame line frame s =
    if is_object frame
    then dispatch line frame (at_key "method" (some frame)) s
    else emit (protocol_error "frame is not an object" line) s

-- One thing that happens to an endpoint.
pub data Call : Type 0 where
  call_request : String → Option Json → RequestOptions → Option String → Call
  call_notify : String → Option Json → Option String → Call
  call_close : Option String → Call
  signal_aborted timer_fired : ℕ → Call
  line_read : String → Call

module _ (parse_json : String → Parsed) where
  unfoldable pub handle_line : String → JsonRpcEndpoint → JsonRpcEndpoint
  unfolding handle_frame
  handle_line line s =
      let trimmed = trim line in
      if trimmed == "" then s else elim (parse_json trimmed) [
        | thrown message ↦ emit (protocol_error message line) s
        | parsed frame ↦ handle_frame line frame s
      ]

  unfoldable pub step : Call → JsonRpcEndpoint → JsonRpcEndpoint
  unfolding handle_line
  step (call_request method params options fault) s = (request method params options fault s).0
  step (call_notify method params fault) s = notify method params fault s
  step (call_close error) s = close error s
  step (signal_aborted id) s = abort id s
  step (timer_fired id) s = timeout id s
  step (line_read line) s = handle_line line s

  unfoldable pub run : JsonRpcEndpoint → List Call → JsonRpcEndpoint
  unfolding step
  run s [] = s
  run s (c ∷ cs) = run (step c s) cs
