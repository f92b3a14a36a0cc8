-- ===== src/Rpc.antt =====
-- dsh/packages/dsh/src/network/jsonrpc.ts: the JSON-RPC endpoint over the streams of the peer
-- process. What it does to the outside is its trace, the newest first: frames written, promises
-- settled, callbacks called. A timer that is not cleared may fire at any time.
pub mod Wire
pub mod Once
pub mod Settled
mod Tests
use soulnet.Prelude.{ℕ, ◌+◌, eqb, String, Bool, true, false, not, Option, none, some}
use soulnet.Prelude.{List, [], ◌∷◌, ◌++◌, if◌then◌else◌, get_or, find, filter, is_some}
use soulnet.Prelude.Int.{ℤ, pos, negsuc, is_positive}
use soulnet.Prelude.Text.{◌⧺◌, trim}
use soulnet.Json.{Json, decimal}
use soulnet.FriendSettings.{over}

pub record JsonRpcError : Type 0 where
  pub message : String
  pub code : ℤ
  pub error_data : Option Json

abbrev pub jsonrpc_closed : ℤ
jsonrpc_closed = negsuc 32098

abbrev pub jsonrpc_timeout : ℤ
jsonrpc_timeout = negsuc 32097

pub data Answer : Type 0 where
  resolved : Option Json → Answer
  rejected : JsonRpcError → Answer

pub record Frame : Type 0 where
  pub id : Option ℕ
  pub method : String
  pub params : Option Json

pub data Effect : Type 0 where
  wrote : Frame → Effect
  settled : ℕ → Answer → Effect
  notified : String → Option Json → Effect
  protocol_error : String → String → Effect
  on_close : Option String → Effect

pub record Pending : Type 0 where
  pub id : ℕ
  pub method : String

-- `timers` are the ids whose timer is set and not cleared, with the text of its error.
pub record JsonRpcEndpoint : Type 0 where
  pub pending : List Pending
  pub timers : List (ℕ × String)
  pub next_id : ℕ
  pub closed : Bool
  pub trace : List Effect

abbrev pub fresh : JsonRpcEndpoint
fresh = record { pending = []; timers = []; next_id = 1; closed = false; trace = [] }

abbrev pub emit : Effect → JsonRpcEndpoint → JsonRpcEndpoint
emit e s = record s { trace = e ∷ s.trace }

-- `this.pending.get(id)`
abbrev pub get : ℕ → JsonRpcEndpoint → Option Pending
get id s = find (λ (p : Pending). eqb p.id id) s.pending

-- `settle` of an entry: its timer is cleared, it is deleted, its promise is settled.
unfoldable pub settle : ℕ → Answer → JsonRpcEndpoint → JsonRpcEndpoint
settle id answer s = record s {
  timers = filter (λ t. not (eqb t.0 id)) s.timers;
  pending = filter (λ (p : Pending). not (eqb p.id id)) s.pending;
  trace = settled id answer ∷ s.trace;
}

-- `this.pending.get(id)?.reject(error)`
unfoldable pub reject_pending : ℕ → (Pending → JsonRpcError) → JsonRpcEndpoint → JsonRpcEndpoint
unfolding settle
reject_pending id error s = elim (get id s) [
  | none ↦ s
  | some entry ↦ settle id (rejected (error entry)) s
]

abbrev pub closed_error : String → JsonRpcError
closed_error message = record { message = message; code = jsonrpc_closed; error_data = none }

abbrev pub close_text : Option String → String
close_text none = "endpoint closed"
close_text (some message) = "endpoint closed: " ⧺ message

unfoldable pub reject_all : List Pending → JsonRpcError → JsonRpcEndpoint → JsonRpcEndpoint
unfolding settle
reject_all [] reason s = s
reject_all (entry ∷ entries) reason s =
    reject_all entries reason (settle entry.id (rejected reason) s)

unfoldable pub close : Option String → JsonRpcEndpoint → JsonRpcEndpoint
unfolding reject_all
close error s =
    if s.closed
    then s
    else (let s' =
          reject_all s.pending (closed_error (close_text error)) (record s { closed = true }) in
        emit (on_close error) (record s' { pending = [] }))

-- `fault` is the message of what the stream or JSON.stringify throws.
unfoldable pub write : Frame → Option String → JsonRpcEndpoint → JsonRpcEndpoint × Bool
unfolding close
write frame fault s = if s.closed then (s, false) else elim fault [
  | none ↦ (emit (wrote frame) s, true)
  | some message ↦ (close (some message) s, false)
]

unfoldable pub notify : String → Option Json → Option String → JsonRpcEndpoint → JsonRpcEndpoint
unfolding write
notify method params fault s =
    (write (record { id = none; method = method; params = params }) fault s).0

-- The options of a call, the default of the endpoint among them.
pub record RequestOptions : Type 0 where
  pub timeout_ms : Option ℤ
  pub default_timeout_ms : Option ℤ
  pub aborted : Bool

abbrev timeout_error : String → ℤ → String
timeout_error method ms = method ⧺ ": no response within " ⧺ decimal ms ⧺ " ms"

-- The entry and its timer, as the promise of the call is made.
unfoldable pub register : String → RequestOptions → JsonRpcEndpoint → JsonRpcEndpoint
register method options s =
    let ms = get_or (over options.timeout_ms options.default_timeout_ms) (pos 0) in
    record s {
      next_id = s.next_id + 1;
      pending = s.pending ++ record { id = s.next_id; method = method } ∷ [];
      timers = if is_positive ms then (s.next_id, timeout_error method ms) ∷ s.timers else s.timers;
    }

pub data Requested : Type 0 where
  refused : JsonRpcError → Requested
  promised : ℕ → Requested

abbrev pub abort_error : Pending → JsonRpcError
abort_error entry = closed_error (entry.method ⧺ ": aborted")

-- `onAbort`, at once or from the listener
unfoldable pub abort : ℕ → JsonRpcEndpoint → JsonRpcEndpoint
unfolding reject_pending
abort id s = reject_pending id abort_error s

unfoldable pub request :
    String
    → Option Json
    → RequestOptions
    → Option String
    → JsonRpcEndpoint
    → JsonRpcEndpoint × Requested
unfolding register abort write
request method params options fault s =
    if s.closed
    then (s, refused (closed_error (method ⧺ ": endpoint is closed")))
    else (let id = s.next_id in
        let s1 = register method options s in
        let s2 = if options.aborted then abort id s1 else s1 in
        let (s3, ok) = write (record { id = some id; method = method; params = params }) fault s2 in
        (
          if ok
              then s3
              else reject_pending id (λ entry. closed_error (method ⧺ ": endpoint is closed")) s3,
          promised id,
        ))

-- The callback of a timer: it deletes and rejects without a look at the map.
unfoldable pub timeout : ℕ → JsonRpcEndpoint → JsonRpcEndpoint
timeout id s = elim (find (λ (t : ℕ × String). eqb t.0 id) s.timers) [
  | none ↦ s
  | some t ↦ record s {
    timers = filter (λ u. not (eqb u.0 id)) s.timers;
    pending = filter (λ (p : Pending). not (eqb p.id id)) s.pending;
    trace =
        settled id (rejected (record { message = t.1; code = jsonrpc_timeout; error_data = none }))
        ∷ s.trace;
  }
]
