-- ===== src/Rpc/Tests.antt =====
-- The theorems about the JSON-RPC endpoint at concrete calls: one request is answered, one times
-- out, one is aborted before it is written, and one waits when the stream fails.
use soulnet.Prelude.{
  String, true, false, none, some, List, [], ◌∷◌, ◌≡◌, refl, ◌==◌, if◌then◌else◌, arith,
}
use soulnet.Prelude.Int.{pos}
use soulnet.Prelude.Text.{trim, trim_start, trim_end}
use soulnet.Json.{at_key, key_of, get_field, num, str, obj, field, end}
use soulnet.Rpc.{
  RequestOptions, fresh, close, request, register, write, notify, timeout, abort, reject_pending,
  settle,
}
use soulnet.Rpc.Wire.{
  Parsed, parsed, thrown, Call, call_request, timer_fired, line_read, run, step, handle_line,
  handle_frame, dispatch, handle_response, answer_of,
}
use soulnet.Rpc.Once.{IsSound, settles}
use soulnet.Rpc.Settled.{run-settles, close-settles}

abbrev plain : RequestOptions
plain = record { timeout_ms = none; default_timeout_ms = some (pos 5000); aborted = false }

abbrev calls : List Call
calls =
    call_request "status" none plain none
    ∷ call_request "send" none plain none
    ∷ call_request "list" none (record plain { aborted = true }) none
    ∷ call_request "events" none plain none
    ∷ line_read "answer"
    ∷ line_read "answer"
    ∷ line_read "noise"
    ∷ timer_fired 2
    ∷ []

abbrev read : String → Parsed
read line =
    if line == "answer"
    then parsed (obj (field "id" (num (pos 1)) (field "result" (str "ok") end)))
    else thrown "Unexpected token"

run-settles_example : IsSound (run read fresh calls)
run-settles_example = run-settles read calls

four_issued : (run read fresh calls).next_id ≡ 5
unfolding run step request register write notify timeout handle_line handle_frame dispatch
    handle_response abort reject_pending settle answer_of close trim at_key key_of get_field
    trim_start trim_end
four_issued = refl

close-settles_example : settles 4 (close (some "EPIPE") (run read fresh calls)).trace ≡ 1
close-settles_example =
    close-settles read calls (some "EPIPE") 4 (omega arith) (omega (arith, four_issued))
