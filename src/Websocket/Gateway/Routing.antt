-- ===== src/Websocket/Gateway/Routing.antt =====
-- Which messages are handled, and by whom.
use code_trace.Prelude.{
  String, ◌≡◌, ◌≢◌, refl, ap, ◌⊎◌, inl, inr, Option, none, some, false, Bool-cases, ◌==◌, text_eq,
}
use code_trace.Errors.{Failure, ok, err}
use code_trace.Exec.{Exec, Ends, returned, threw, Ends-try_then, Ends-mono, Ends-seen, Ends-state}
use code_trace.Websocket.Chat.{Frame, error_frame, shown_error}
use code_trace.Websocket.Gateway.{
  Parsed, invalid, null_value, typed, Handler, progress, review_progress, chat, handler_of,
  null_type, run_handler, on_parsed, on_message,
}

module _ {S : Type 0} (parse : String → Parsed) (send : Frame → Exec S (Unit {0}))
    (handlers : Handler → String → Exec S (Unit {0})) where
  -- The outcome of `ws.send` of one error frame in state `s`, and nothing else.
  abbrev pub SendsError : String → S → S → Type 0
  SendsError message s t = send (error_frame message) s ≡ (ok tt, t)

  -- The messages that a handler is for, by the field `type`.
  abbrev pub IsFor : Option String → Handler → Type 0
  IsFor type progress = type ≡ some "subscribe-progress"
  IsFor type review_progress = type ≡ some "subscribe-pr-review-progress"
  IsFor type chat =
      (type ≢ some "subscribe-progress") × (type ≢ some "subscribe-pr-review-progress")

  -- The handler has run, and a failure of it is told in one error frame.
  abbrev pub Handles : Handler → String → S → S → Type 0
  Handles handler raw s t =
      (handlers handler raw s ≡ (ok tt, t))
      ⊎ ((e : Failure) × (u : S) × (handlers handler raw s ≡ (err e, u))
          × SendsError (shown_error "Unknown error" e) u t)

  abbrev pub Routes : Parsed → String → S → S → Type 0
  Routes invalid raw s t = SendsError "Invalid JSON" s t
  Routes null_value raw s t = ⊥
  Routes (typed type) raw s t = (handler : Handler) × IsFor type handler × Handles handler raw s t

  handler_of-IsFor : (type : Option String) → IsFor type (handler_of type)
  handler_of-IsFor none = (λ e. cc e, λ e. cc e)
  handler_of-IsFor (some type) = elim (Bool-cases (type == "subscribe-progress")) [
    | inl e ↦ rw e (ap some ((text_eq.beq_iff type "subscribe-progress").0 e))
    | inr e ↦ elim (Bool-cases (type == "subscribe-pr-review-progress")) [
      | inl f ↦ rw (e, f) (ap some ((text_eq.beq_iff type "subscribe-pr-review-progress").0 f))
      | inr f ↦ rw (e, f) (other type "subscribe-progress" e, other type _ f)
    ]
  ]
    where
      other : (a b : String) → (a == b) ≡ false → ◌≢◌ {A = Option String} (some a) (some b)
      other a b e same = cc (e, (text_eq.beq_iff a b).1 (cc same))

  module _ (sends : (frame : Frame) (u : S) → (t : S) × (send frame u ≡ (ok tt, t))) where
    sent-Ends :
        (message : String) (s : S)
        → Ends (send (error_frame message) s) (λ done t. SendsError message s t) (λ e t. ⊥)
    sent-Ends message s = let (t, sent) = sends (error_frame message) s in returned tt t sent sent

    on_parsed-Ends :
        (p : Parsed) (raw : String) (s : S)
        → Ends
            (on_parsed parse send handlers p raw s)
            (λ done t. Routes p raw s t)
            (λ e t. (p ≡ null_value) × (e ≡ null_type) × (t ≡ s))
    unfolding on_parsed run_handler
    on_parsed-Ends invalid raw s =
        Ends-mono _ (sent-Ends "Invalid JSON" s) (λ done t h. h) (λ e t h. absurd h)
    on_parsed-Ends null_value raw s = threw null_type s refl (refl, refl, refl)
    on_parsed-Ends (typed type) raw s =
        Ends-try_then _ _ _ s
          (Ends-seen _ (Ends-state (handlers (handler_of type) raw s) (λ t. Unit {0}) tt))
          (λ done t (handled, _).
            returned done t refl (handler_of type, handler_of-IsFor type, inl handled))
          (λ e u (failed, _).
            Ends-mono _ (sent-Ends (shown_error "Unknown error" e) u)
              (λ done t sent. (handler_of type, handler_of-IsFor type, inr (e, u, failed, sent)))
              (λ f t h. absurd h))

    -- If `ws.send` does not throw, the gateway hands every message that parses to another value than null to one
    -- handler: that of the index progress if its type is "subscribe-progress", that of the review progress if it
    -- is "subscribe-pr-review-progress", and that of the chat for every other type or none. It tells the client a
    -- failure of that handler by one error frame and survives it. A text that does not parse gets one error frame.
    -- The text of null alone escapes as a TypeError.
    pub on_message_lem :
        (raw : String) (s : S)
        → Ends
            (on_message parse send handlers raw s)
            (λ done t. Routes (parse raw) raw s t)
            (λ e t. (parse raw ≡ null_value) × (e ≡ null_type) × (t ≡ s))
    unfolding on_message
    on_message_lem raw s = on_parsed-Ends (parse raw) raw s
