-- ===== src/Webhooks/Tests.antt =====
-- A push whose handler fails, and a second delivery of a claimed one.
use code_trace.Prelude.{
  String, ◌≡◌, refl, ◌⊎◌, inl, inr, true, not, List, [], ◌∷◌, Has, keep, includes, includes→Has,
  if◌then◌else◌, ◌==◌, text_eq, Bool-cases, none, Has→includes,
}
use code_trace.Errors.{Result, ok, err, error, known_request, is_unique_violation}
use code_trace.Exec.{Exec, Ends, returned, threw, ◌>>=◌, try_then}
use code_trace.Webhooks.{
  EventTable, Handlers, WebhookAnswer, answer_event, try_claim_event, handle_claimed, dispatch,
}
use code_trace.Webhooks.Claims.{
  LeavesEvents, IsAnswered, IsStuck, answer_event_lem, answer_event_once,
}

abbrev Ids : Type 0
Ids = List String

abbrev create_in : String → String → Exec Ids (Unit {0})
create_in id event_type ids =
    if includes id ids
    then (err (known_request "P2002" "Unique constraint failed"), ids)
    else (ok tt, id ∷ ids)

create_in_lem :
    (id event_type : String) (ids : Ids)
    → Ends
        (create_in id event_type ids)
        (λ done t. (Has id ids → ⊥) × (t ≡ id ∷ ids))
        (λ e t. (t ≡ ids) × (is_unique_violation e ≡ true → Has id ids))
create_in_lem id event_type ids = elim (Bool-cases (includes id ids)) [
  | inl e ↦ rw e (threw _ ids refl (refl, λ h. includes→Has id ids e))
  | inr e ↦ rw e (returned tt _ refl ((λ h. absurd (cc (Has→includes id ids h, e))), refl))
]

abbrev memory : EventTable Ids
memory = record {
  events = λ ids. ids;
  create = create_in;
  delete = λ id ids. (ok tt, keep (λ i. not (i == id)) ids);
  create_lem = create_in_lem;
  delete_lem = λ id ids. returned tt _ refl refl;
}

-- The push handler fails, the others do nothing.
abbrev failing : Handlers Ids String
failing = record {
  handle_push_event = λ body ids. (err (error none "redis is down"), ids);
  handle_pull_request_event = λ body ids. (ok tt, ids);
  handle_installation_event = λ body ids. (ok tt, ids);
}

failing-LeavesEvents : LeavesEvents memory failing
unfolding dispatch
failing-LeavesEvents event_type body s = elim (Bool-cases (event_type == "push")) [
  | inl e ↦ rw e refl
  | inr e ↦ elim (Bool-cases (event_type == "pull_request")) [
    | inl f ↦ rw (e, f) refl
    | inr f ↦ elim (Bool-cases (event_type == "installation")) [
      | inl g ↦ rw (e, f, g) refl
      | inr g ↦ rw (e, f, g) refl
    ]
  ]
]

answer_event_lem_example :
    Ends
      (answer_event memory failing "push" "d1" "body" ("d0" ∷ []))
      (IsAnswered memory failing failing-LeavesEvents "d1" ("d0" ∷ []))
      (λ e t. (t ≡ "d0" ∷ []) ⊎ IsStuck memory failing failing-LeavesEvents "d1" t)
answer_event_lem_example =
    answer_event_lem memory failing failing-LeavesEvents "push" "d1" "body" ("d0" ∷ [])

answer_event_once_example :
    (outcome : Result WebhookAnswer × Ids) × (outcome.1 ≡ "d0" ∷ [])
    × ((handlers : Handlers Ids String)
        → answer_event memory handlers "push" "d0" "body" ("d0" ∷ []) ≡ outcome)
answer_event_once_example = answer_event_once memory "push" "d0" "body" ("d0" ∷ []) (inl refl)

-- The failed push leaves no claim.
release_test :
    answer_event memory failing "push" "d1" "body" ("d0" ∷ [])
    ≡ (err (error none "redis is down"), "d0" ∷ [])
unfolding answer_event try_claim_event handle_claimed dispatch ◌>>=◌ try_then
release_test = refl
