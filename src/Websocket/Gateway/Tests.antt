-- ===== src/Websocket/Gateway/Tests.antt =====
-- A socket that keeps what is sent, and handlers of which one throws.
use code_trace.Prelude.{String, ◌≡◌, refl, some, List, [], ◌∷◌, ◌==◌, text_eq, if◌then◌else◌}
use code_trace.Errors.{ok, err, thrown}
use code_trace.Exec.{Exec, Ends, try_then}
use code_trace.Websocket.Chat.{Frame, error_frame}
use code_trace.Websocket.Gateway.{
  Parsed, null_value, typed, Handler, progress, review_progress, chat, on_message, null_type,
  on_parsed, run_handler,
}
use code_trace.Websocket.Gateway.Routing.{Routes, on_message_lem}

abbrev parse : String → Parsed
parse raw = if raw == "null" then null_value else typed (some raw)

abbrev send : Frame → Exec (List Frame) (Unit {0})
send frame sent = (ok tt, frame ∷ sent)

abbrev handlers : Handler → String → Exec (List Frame) (Unit {0})
handlers progress raw sent = (err (thrown "no row"), sent)
handlers review_progress raw sent = (ok tt, sent)
handlers chat raw sent = (ok tt, sent)

reported :
    on_message parse send handlers "subscribe-progress" []
    ≡ (ok tt, error_frame "Unknown error" ∷ [])
unfolding on_message on_parsed run_handler try_then
reported = refl

escaped : on_message parse send handlers "null" [] ≡ (err null_type, [])
unfolding on_message on_parsed
escaped = refl

on_message_lem_example :
    Ends
      (on_message parse send handlers "subscribe-progress" [])
      (λ done t.
        Routes parse send handlers (typed (some "subscribe-progress")) "subscribe-progress" [] t)
      (λ e t. (typed (some "subscribe-progress") ≡ null_value) × (e ≡ null_type) × (t ≡ []))
on_message_lem_example =
    on_message_lem parse send handlers (λ frame u. (frame ∷ u, refl)) "subscribe-progress" []
