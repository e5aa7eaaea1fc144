-- ===== src/Webhooks.antt =====
-- backend/src/modules/webhooks: a delivery from GitHub is claimed by its id before it is handled. The
-- table webhook_events and the three handlers are parameters.
pub mod Claims
pub mod Dispatcher
pub mod Tests
use code_trace.Prelude.{
  String, ◌≡◌, ◌⊎◌, Bool, true, false, not, ◌||◌, Option, none, some, List, ◌∷◌, Has, keep,
  if◌then◌else◌, ◌==◌, text_eq,
}
use code_trace.Errors.{Failure, bad_request, is_unique_violation}
use code_trace.Exec.{Exec, pure, raise, ◌>>=◌, try_then, Ends}

-- The ids of the claimed events. `create` is refused with P2002 only if the id is taken
-- (@unique on event_id); a failed call changes nothing.
pub record EventTable (S : Type 0) : Type 0 where
  pub events : S → List String
  pub create : String → String → Exec S (Unit {0})
  pub delete : String → Exec S (Unit {0})
  pub create_lem :
      (event_id event_type : String) (s : S)
      → Ends
          (create event_id event_type s)
          (λ done t. (Has event_id (events s) → ⊥) × (events t ≡ event_id ∷ events s))
          (λ e t. (events t ≡ events s) × (is_unique_violation e ≡ true → Has event_id (events s)))
  pub delete_lem :
      (event_id : String) (s : S)
      → Ends
          (delete event_id s)
          (λ done t. events t ≡ keep (λ id. not (id == event_id)) (events s))
          (λ e t. events t ≡ events s)

-- The handlers of webhook-dispatcher.service.ts, on a body of type `B`.
pub record Handlers (S B : Type 0) : Type 0 where
  pub handle_push_event : B → Exec S (Unit {0})
  pub handle_pull_request_event : B → Exec S (Unit {0})
  pub handle_installation_event : B → Exec S (Unit {0})

pub data WebhookAnswer : Type 0 where
  deduped processed : WebhookAnswer

-- `!eventType || !deliveryId`
abbrev pub is_missing : Option String → Bool
is_missing none = true
is_missing (some text) = text == ""

module _ {S B : Type 0} (table : EventTable S) (handlers : Handlers S B) where
  open handlers use {handle_push_event, handle_pull_request_event, handle_installation_event}

  pub try_claim_event : String → String → Exec S Bool
  try_claim_event event_id event_type =
      try_then (table.create event_id event_type) (λ done. pure true)
        (λ e. if is_unique_violation e then pure false else raise e)

  -- the `switch`
  pub dispatch : String → B → Exec S (Unit {0})
  dispatch event_type body =
      if event_type == "push"
      then handle_push_event body
      else if event_type == "pull_request"
      then handle_pull_request_event body
      else if event_type == "installation"
      then handle_installation_event body
      else pure tt

  -- the `try` around it, whose `catch` releases the claim and swallows a failure to do so
  pub handle_claimed : String → String → B → Exec S WebhookAnswer
  handle_claimed event_type delivery_id body =
      try_then (dispatch event_type body) (λ done. pure processed)
        (λ e. try_then (table.delete delivery_id) (λ done. raise e) (λ f. raise e))

  pub answer_event : String → String → B → Exec S WebhookAnswer
  unfolding try_claim_event handle_claimed
  answer_event event_type delivery_id body = do
    claimed ← try_claim_event delivery_id event_type
    if claimed then handle_claimed event_type delivery_id body else pure deduped

  pub post_github_webhook : Option String → Option String → B → Exec S WebhookAnswer
  unfolding answer_event
  post_github_webhook none delivery_id body =
      raise (bad_request "MISSING_HEADERS" "Missing x-github-event or x-github-delivery")
  post_github_webhook (some event_type) none body =
      raise (bad_request "MISSING_HEADERS" "Missing x-github-event or x-github-delivery")
  post_github_webhook (some event_type) (some delivery_id) body =
      if is_missing (some event_type) || is_missing (some delivery_id)
      then raise (bad_request "MISSING_HEADERS" "Missing x-github-event or x-github-delivery")
      else answer_event event_type delivery_id body
