-- ===== src/Rpc/Settled.antt =====
-- The endpoint of network/jsonrpc.ts over any calls and events: every request is settled once.
use soulnet.Prelude.{ℕ, ◌+◌, ◌≤◌, ◌<◌, eqb, String, Bool, true, false, Option, none, some, arith}
use soulnet.Prelude.{List, [], ◌∷◌, if◌then◌else◌, find, Option-cases, inl, inr}
use soulnet.Prelude.{◌≡◌, refl, subst}
use soulnet.Prelude.Int.{pos, negsuc}
use soulnet.Prelude.Text.{◌⧺◌, trim}
use soulnet.Json.{Json, null, bool, num, str, arr, obj}
use soulnet.Rpc.{
  JsonRpcError, Answer, rejected, Pending, Frame, wrote, protocol_error, JsonRpcEndpoint, fresh,
  emit, get, settle, reject_pending, close, write, notify, RequestOptions, register, request, abort,
  timeout, abort_error, closed_error,
}
use soulnet.Rpc.Wire.{
  Parsed, parsed, thrown, unknown_id, handle_response, dispatch, handle_frame, handle_line, Call,
  call_request, call_notify, call_close, signal_aborted, timer_fired, line_read, step, run,
  answer_of,
}
use soulnet.Rpc.Once.{
  how_many-append, how_many-find, settles, waiting, issued, IsSound, settle-IsSound, emit-IsSound,
  close-IsSound, close-closed,
}

-- An entry that the map holds may be settled.
found-IsSound :
    (id : ℕ) (entry : Pending) (answer : Answer) (s : JsonRpcEndpoint)
    → get id s ≡ some entry
    → IsSound s
    → IsSound (settle id answer s)
found-IsSound id entry answer s found sound =
    settle-IsSound id answer s sound
      (how_many-find (λ (p : Pending). p.id) id s.pending entry found).0

reject_pending-IsSound :
    (id : ℕ) (error : Pending → JsonRpcError) (s : JsonRpcEndpoint)
    → IsSound s
    → IsSound (reject_pending id error s)
unfolding reject_pending
reject_pending-IsSound id error s sound = elim (Option-cases (get id s)) [
  | inl missing ↦ simp (reject_pending, missing) sound
  | inr (entry, found) ↦
      simp (reject_pending, found) (found-IsSound id entry (rejected (error entry)) s found sound)
]

IsSound-if :
    (b : Bool) (s t : JsonRpcEndpoint) → IsSound s → IsSound t → IsSound (if b then s else t)
IsSound-if true s t h k = h
IsSound-if false s t h k = k

IsSound-guard :
    {B : Type 0} (b : Bool) (x y : JsonRpcEndpoint × B)
    → IsSound x.0
    → (b ≡ false → IsSound y.0)
    → IsSound (if b then x else y).0
IsSound-guard true x y h k = h
IsSound-guard false x y h k = k refl

write-IsSound :
    (frame : Frame) (fault : Option String) (s : JsonRpcEndpoint)
    → IsSound s
    → IsSound (write frame fault s).0
unfolding write
write-IsSound frame none s sound =
    IsSound-guard s.closed (s, false) (emit (wrote frame) s, true) sound
      (λ _. emit-IsSound (wrote frame) s (λ _. refl) sound)
write-IsSound frame (some message) s sound =
    IsSound-guard s.closed (s, false) (close (some message) s, false) sound
      (λ _. close-IsSound (some message) s sound)

register-IsSound :
    (method : String) (options : RequestOptions) (s : JsonRpcEndpoint)
    → s.closed ≡ false
    → IsSound s
    → IsSound (register method options s)
unfolding register
register-IsSound method options s live sound = record {
  once = λ j. rw (how_many-append) (ground (arith, sound.once j, sound.from_one));
  for_pending = λ j. rw (how_many-append) (ground (arith, sound.for_pending j));
  shut = λ closed. absurd (ground (arith, closed, live));
  from_one = omega (arith, sound.from_one);
}

timeout-IsSound : (id : ℕ) (s : JsonRpcEndpoint) → IsSound s → IsSound (timeout id s)
unfolding timeout settle
timeout-IsSound id s sound = elim (Option-cases (find (λ (t : ℕ × String). eqb t.0 id) s.timers)) [
  | inl missing ↦ simp (timeout, missing) sound
  | inr (t, found) ↦
      let runs = (how_many-find (λ (u : ℕ × String). u.0) id s.timers t found).0 in
      simp (timeout, found)
        (settle-IsSound id _ s sound (omega (arith, runs, sound.for_pending id)))
]

request-IsSound :
    (method : String) (params : Option Json) (options : RequestOptions) (fault : Option String)
    (s : JsonRpcEndpoint)
    → IsSound s
    → IsSound (request method params options fault s).0
unfolding request abort
request-IsSound method params options fault s sound = IsSound-guard s.closed _ _ sound (λ live.
    let s1 = register method options s in
    let sound1 = register-IsSound method options s live sound in
    let sound2 =
      IsSound-if options.aborted (abort s.next_id s1) s1
        (reject_pending-IsSound s.next_id abort_error s1 sound1) sound1 in
    let s2 = if options.aborted then abort s.next_id s1 else s1 in
    let frame : Frame = record { id = some s.next_id; method = method; params = params } in
    let sent = write frame fault s2 in
    let sound3 = write-IsSound frame fault s2 sound2 in
    IsSound-if sent.1 sent.0 _ sound3 (
      reject_pending-IsSound s.next_id (λ _. closed_error (method ⧺ ": endpoint is closed")) sent.0
        sound3))

handle_response-IsSound :
    (line : String) (frame : Json) (id : Option Json) (s : JsonRpcEndpoint)
    → IsSound s
    → IsSound (handle_response line frame id s)
unfolding handle_response
handle_response-IsSound line frame none s sound = emit-IsSound _ s (λ _. refl) sound
handle_response-IsSound line frame (some null) s sound = emit-IsSound _ s (λ _. refl) sound
handle_response-IsSound line frame (some (bool b)) s sound = emit-IsSound _ s (λ _. refl) sound
handle_response-IsSound line frame (some (str t)) s sound = emit-IsSound _ s (λ _. refl) sound
handle_response-IsSound line frame (some (arr vs)) s sound = emit-IsSound _ s (λ _. refl) sound
handle_response-IsSound line frame (some (obj fs)) s sound = emit-IsSound _ s (λ _. refl) sound
handle_response-IsSound line frame (some (num (negsuc n))) s sound =
    emit-IsSound _ s (λ _. refl) sound
handle_response-IsSound line frame (some (num (pos id))) s sound = elim (Option-cases (get id s)) [
  | inl missing ↦
      simp (handle_response, missing) (emit-IsSound (unknown_id (pos id) line) s (λ _. refl) sound)
  | inr (entry, found) ↦
      let same = (how_many-find (λ (p : Pending). p.id) id s.pending entry found).1 in
      simp (handle_response, found)
        (rw same (found-IsSound id entry (answer_of frame entry) s found sound))
]

dispatch-IsSound :
    (line : String) (frame : Json) (method : Option Json) (s : JsonRpcEndpoint)
    → IsSound s
    → IsSound (dispatch line frame method s)
unfolding dispatch
dispatch-IsSound line frame none s sound = handle_response-IsSound line frame _ s sound
dispatch-IsSound line frame (some null) s sound = handle_response-IsSound line frame _ s sound
dispatch-IsSound line frame (some (bool b)) s sound = handle_response-IsSound line frame _ s sound
dispatch-IsSound line frame (some (num n)) s sound = handle_response-IsSound line frame _ s sound
dispatch-IsSound line frame (some (arr vs)) s sound = handle_response-IsSound line frame _ s sound
dispatch-IsSound line frame (some (obj fs)) s sound = handle_response-IsSound line frame _ s sound
dispatch-IsSound line frame (some (str method)) s sound =
    IsSound-if _ _ _ (handle_response-IsSound line frame _ s sound)
      (emit-IsSound _ s (λ _. refl) sound)

module _ (parse_json : String → Parsed) where
  handle_line-IsSound :
      (line : String) (s : JsonRpcEndpoint) → IsSound s → IsSound (handle_line parse_json line s)
  unfolding handle_line handle_frame
  handle_line-IsSound line s sound = IsSound-if _ s _ sound (go (parse_json (trim line)))
    where
      go :
          (p : Parsed)
          → IsSound (elim p [
            | thrown message ↦ emit (protocol_error message line) s
            | parsed frame ↦ handle_frame line frame s
          ])
      go (thrown message) = emit-IsSound _ s (λ _. refl) sound
      go (parsed frame) =
          IsSound-if _ _ _ (dispatch-IsSound line frame _ s sound)
            (emit-IsSound _ s (λ _. refl) sound)

  step-IsSound : (c : Call) (s : JsonRpcEndpoint) → IsSound s → IsSound (step parse_json c s)
  unfolding step notify abort
  step-IsSound (call_request method params options fault) s sound =
      request-IsSound method params options fault s sound
  step-IsSound (call_notify method params fault) s sound = write-IsSound _ fault s sound
  step-IsSound (call_close error) s sound = close-IsSound error s sound
  step-IsSound (signal_aborted id) s sound = reject_pending-IsSound id abort_error s sound
  step-IsSound (timer_fired id) s sound = timeout-IsSound id s sound
  step-IsSound (line_read line) s sound = handle_line-IsSound line s sound

  run-IsSound : (s : JsonRpcEndpoint) (cs : List Call) → IsSound s → IsSound (run parse_json s cs)
  unfolding run
  run-IsSound s [] sound = sound
  run-IsSound s (c ∷ cs) sound = run-IsSound (step parse_json c s) cs (step-IsSound c s sound)

  fresh-IsSound : IsSound fresh
  fresh-IsSound = record {
    once = λ j. ground arith;
    for_pending = λ j. omega arith;
    shut = λ _. refl;
    from_one = omega arith;
  }

  -- Whatever is called and whatever arrives, in any order: each request that was given an id either
  -- waits and has not been settled, or does not wait and has been settled once; nothing else was
  -- ever settled, only requests that wait have a timer, and a closed endpoint has none that waits.
  pub run-settles : (cs : List Call) → IsSound (run parse_json fresh cs)
  run-settles cs = run-IsSound fresh cs fresh-IsSound

  -- Closing leaves nobody waiting: behind any calls and events, once the endpoint is closed, every
  -- request that was ever given an id has been settled once.
  pub close-settles :
      (cs : List Call) (error : Option String) (id : ℕ)
      → 1 ≤ id
      → id < (run parse_json fresh cs).next_id
      → settles id (close error (run parse_json fresh cs)).trace ≡ 1
  close-settles cs error id from_one below =
      let s = run parse_json fresh cs in
      let sound = close-IsSound error s (run-settles cs) in
      let (closed, same) = close-closed error s in
      let once = sound.once id in
      ground (
        arith,
        subst (λ l. settles id (close error s).trace + waiting id l ≡ issued id s.next_id)
            (sound.shut closed)
            (subst
              (λ n.
                settles id (close error s).trace + waiting id (close error s).pending ≡ issued id n)
              same once),
      )
