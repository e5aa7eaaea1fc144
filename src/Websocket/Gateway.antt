-- ===== src/Websocket/Gateway.antt =====
-- gateway.ts: what becomes of a message that a client sends. JSON.parse and the three handlers are
-- parameters.
mod Routing
mod Tests
use code_trace.Prelude.{
  String, ◌≡◌, Option, none, some, List, [], ◌∷◌, ◌==◌, text_eq, if◌then◌else◌,
}
use code_trace.Errors.{Result, ok, err, Failure, error}
use code_trace.Exec.{Exec, pure, raise, ◌>>=◌, try_then}
use code_trace.Websocket.Chat.{Frame, error_frame, shown_error}

-- What JSON.parse makes of a text: of an object only its field `type` matters here, and any other value
-- but null has none.
pub data Parsed : Type 0 where
  invalid null_value : Parsed
  typed : Option String → Parsed

pub data Handler : Type 0 where
  progress review_progress chat : Handler

abbrev pub named_handler : String → Handler
named_handler type =
    if type == "subscribe-progress"
    then progress
    else if type == "subscribe-pr-review-progress"
    then review_progress
    else chat

abbrev pub handler_of : Option String → Handler
handler_of none = chat
handler_of (some type) = named_handler type

-- Reading `type` of null throws, outside every `try`.
abbrev pub null_type : Failure
null_type = error none "Cannot read properties of null (reading 'type')"

module _ {S : Type 0} (parse : String → Parsed) (send : Frame → Exec S (Unit {0}))
    (handlers : Handler → String → Exec S (Unit {0})) where
  -- `handler(ws, raw).catch(…)`
  unfoldable pub run_handler : Handler → String → Exec S (Unit {0})
  run_handler handler raw =
      try_then (handlers handler raw) pure (λ e. send (error_frame (shown_error "Unknown error" e)))

  unfoldable pub on_parsed : Parsed → String → Exec S (Unit {0})
  on_parsed invalid raw = send (error_frame "Invalid JSON")
  on_parsed null_value raw = raise null_type
  on_parsed (typed type) raw = run_handler (handler_of type) raw

  unfoldable pub on_message : String → Exec S (Unit {0})
  on_message raw = on_parsed (parse raw) raw
