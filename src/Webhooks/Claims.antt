-- ===== src/Webhooks/Claims.antt =====
-- What a delivery leaves in webhook_events.
use code_trace.Prelude.{
  String, ◌≡◌, refl, sym, ap, ◌∙◌, ◌⊎◌, inl, inr, true, false, not, List, [], ◌∷◌, Has, keep,
  Bool-cases, ◌==◌, text_eq, eq_iff,
}
use code_trace.Errors.{Failure, Result, ok, err, is_unique_violation}
use code_trace.Exec.{
  raise, try_then, Ends, returned, threw, Ends-bind, Ends-try_then, Ends-mono, bind_lem,
  try_then_lem,
}
use code_trace.Webhooks.{
  EventTable, Handlers, WebhookAnswer, deduped, processed, try_claim_event, dispatch,
  handle_claimed, answer_event,
}

-- No handler writes the table of events.
abbrev pub LeavesEvents : {S B : Type 0} → EventTable S → Handlers S B → Type 0
LeavesEvents {S} {B} table handlers =
    (event_type : String) (body : B) (s : S)
    → table.events (dispatch table handlers event_type body s).1 ≡ table.events s

keep-absent :
    (id : String) (ids : List String) → (Has id ids → ⊥) → keep (λ i. not (i == id)) ids ≡ ids
keep-absent id [] absent = refl
keep-absent id (i ∷ ids) absent = elim (Bool-cases (i == id)) [
  | inl same ↦ absurd (absent (inl ((eq_iff i id).0 same)))
  | inr other ↦ rw other (ap (λ xs. i ∷ xs) (keep-absent id ids (λ h. absent (inr h))))
]

keep-removed :
    (id : String) (ids : List String)
    → (Has id ids → ⊥)
    → keep (λ i. not (i == id)) (id ∷ ids) ≡ ids
keep-removed id ids absent = rw ((eq_iff id id).1 refl) (keep-absent id ids absent)

module _ {S B : Type 0} (table : EventTable S) (handlers : Handlers S B)
    (leaves : LeavesEvents table handlers) where
  open table use {events}

  -- What the answer, or the failure, tells of the events before and after.
  abbrev pub IsAnswered : String → S → WebhookAnswer → S → Type 0
  IsAnswered delivery_id s answer t =
      ((answer ≡ processed)
        × (Has delivery_id (events s) → ⊥)
        × (events t ≡ delivery_id ∷ events s))
      ⊎ ((answer ≡ deduped) × Has delivery_id (events s) × (events t ≡ events s))

  -- The release of the claim failed, and ended in this state.
  abbrev pub IsStuck : String → S → Type 0
  IsStuck delivery_id t = (f : Failure) × (u : S) × (table.delete delivery_id u ≡ (err f, t))

  dispatch-Ends :
      (event_type : String) (body : B) (s : S)
      → Ends
          (dispatch table handlers event_type body s)
          (λ done t. events t ≡ events s)
          (λ e t. events t ≡ events s)
  dispatch-Ends event_type body s = go (dispatch table handlers event_type body s) refl
    where
      go :
          (r : Result (Unit {0}) × S)
          → dispatch table handlers event_type body s ≡ r
          → Ends r (λ done t. events t ≡ events s) (λ e t. events t ≡ events s)
      go (ok a, t) e = returned a t refl (sym (ap (λ r. events r.1) e) ∙ leaves event_type body s)
      go (err f, t) e = threw f t refl (sym (ap (λ r. events r.1) e) ∙ leaves event_type body s)

  handle_claimed-Ends :
      (event_type delivery_id : String) (body : B) (before : List String) (s : S)
      → (Has delivery_id before → ⊥)
      → events s ≡ delivery_id ∷ before
      → Ends
          (handle_claimed table handlers event_type delivery_id body s)
          (λ answer t. (answer ≡ processed) × (events t ≡ delivery_id ∷ before))
          (λ e t. (events t ≡ before) ⊎ IsStuck delivery_id t)
  unfolding handle_claimed
  handle_claimed-Ends event_type delivery_id body before s absent claimed =
      Ends-try_then _ _ _ s (dispatch-Ends event_type body s)
        (λ done t same. returned processed t refl (refl, same ∙ claimed))
        (λ e t same. released e t (same ∙ claimed) (table.delete_lem delivery_id t))
    where
      released :
          (e : Failure) (t : S)
          → events t ≡ delivery_id ∷ before
          → Ends
              (table.delete delivery_id t)
              (λ done u. events u ≡ keep (λ id. not (id == delivery_id)) (events t))
              (λ f u. events u ≡ events t)
          → Ends
              (try_then
                (table.delete delivery_id)
                (λ done. raise {A = WebhookAnswer} e)
                (λ f. raise e)
                t)
              (λ answer u. (answer ≡ processed) × (events u ≡ delivery_id ∷ before))
              (λ f u. (events u ≡ before) ⊎ IsStuck delivery_id u)
      released e t here (returned done u same gone) =
          rw (try_then_lem, same)
            (threw e u refl (
              inl (
                gone
                ∙ ap (keep (λ id. not (id == delivery_id))) here
                ∙ keep-removed delivery_id before absent)))
      released e t here (threw f u same kept) =
          rw (try_then_lem, same) (threw e u refl (inr (f, t, same)))

  try_claim_event-Ends :
      (delivery_id event_type : String) (s : S)
      → Ends
          (try_claim_event table handlers delivery_id event_type s)
          (λ claimed t.
            ((claimed ≡ true)
              × (Has delivery_id (events s) → ⊥)
              × (events t ≡ delivery_id ∷ events s))
            ⊎ ((claimed ≡ false) × Has delivery_id (events s) × (events t ≡ events s)))
          (λ e t. events t ≡ events s)
  unfolding try_claim_event
  try_claim_event-Ends delivery_id event_type s =
      Ends-try_then _ _ _ s (table.create_lem delivery_id event_type s)
        (λ done t (absent, rows). returned true t refl (inl (refl, absent, rows)))
        (λ e t (rows, taken). elim (Bool-cases (is_unique_violation e)) [
          | inl unique ↦ rw unique (returned false t refl (inr (refl, taken unique, rows)))
          | inr other ↦ rw other (threw e t refl rows)
        ])

  -- A delivery with both headers. If it is answered as processed, then its event was not claimed
  -- before and is claimed now; as deduped, then it was claimed before and no claim has changed. If it
  -- fails, then the claims are those from before, so that GitHub's next delivery is handled, unless the
  -- release of the claim failed. The condition: no handler writes the table of events.
  pub answer_event_lem :
      (event_type delivery_id : String) (body : B) (s : S)
      → Ends
          (answer_event table handlers event_type delivery_id body s)
          (IsAnswered delivery_id s)
          (λ e t. (events t ≡ events s) ⊎ IsStuck delivery_id t)
  unfolding answer_event
  answer_event_lem event_type delivery_id body s =
      Ends-bind _ _ s (try_claim_event-Ends delivery_id event_type s)
        (λ claimed t outcome. elim outcome [
          | inl (won, absent, rows) ↦ rw won (
              Ends-mono _ (handle_claimed-Ends event_type delivery_id body (events s) t absent rows)
                (λ answer u (same, kept). inl (same, absent, kept)) (λ e u k. k))
          | inr (lost, taken, rows) ↦ rw lost (returned deduped t refl (inr (refl, taken, rows)))
        ])
        (λ e t rows. inl rows)

module _ {S B : Type 0} (table : EventTable S) where
  -- If the event is claimed, then its delivery has one outcome, the same for all handlers, so no
  -- handler runs; and no claim changes.
  pub answer_event_once :
      (event_type delivery_id : String) (body : B) (s : S)
      → Has delivery_id (table.events s)
      → (outcome : Result WebhookAnswer × S) × (table.events outcome.1 ≡ table.events s)
        × ((handlers : Handlers S B)
            → answer_event table handlers event_type delivery_id body s ≡ outcome)
  unfolding answer_event try_claim_event
  answer_event_once event_type delivery_id body s taken =
      elim (table.create_lem delivery_id event_type s) [
        | returned done t same (absent, rows) ↦ absurd (absent taken)
        | threw e t same (rows, unique) ↦ elim (Bool-cases (is_unique_violation e)) [
          | inl yes_unique ↦ (
            (ok deduped, t),
            rows,
            λ handlers. rw (bind_lem, try_then_lem, same, yes_unique) refl,
          )
          | inr other ↦
              ((err e, t), rows, λ handlers. rw (bind_lem, try_then_lem, same, other) refl)
        ]
      ]
