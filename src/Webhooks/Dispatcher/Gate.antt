-- ===== src/Webhooks/Dispatcher/Gate.antt =====
-- Which repository an event reaches.
use code_trace.Prelude.{
  ℕ, String, ◌≡◌, refl, sym, ◌∙◌, ap, ◌⊎◌, inl, inr, Bool, true, false, not, ◌&&◌, Option, none,
  some, [], ◌∷◌, find, find-eq-some, Has, is_some, includes, text_eq, if◌then◌else◌, Bool-cases,
}
use code_trace.Errors.{Failure, err}
use code_trace.Exec.{
  Ends, returned, threw, pure, raise, Ends-bind, Ends-mono, Ends-try_then, Ends-gets,
}
use code_trace.Indexing.{IndexJob, incremental}
use code_trace.Indexing.Start.{create_and_enqueue_index_job_lem, IsStarted, IsUnchanged}
use code_trace.Webhooks.Dispatcher.{
  GitHubPushEvent, GitHubPullRequestEvent, HookRepository, HookPullRequest, HookServices, is_target,
  split_full_name, is_already_indexing, start_incremental, push_to, handle_push_event, job_of,
  queue_review, review_in, handle_pull_request_event,
}

module _ {S : Type 0} (services : HookServices S) where
  open services use {index, rows, queued}

  -- The repository has exactly the owner and the name of the event, and its installation is not revoked.
  abbrev pub IsReached : String → S → HookRepository → Type 0
  IsReached full_name s r =
      Has r (rows s)
      × (split_full_name full_name ≡ some (r.owner, r.name))
      × (r.installation_revoked_at ≡ none)

  is_none : (o : Option ℕ) → not (is_some o) ≡ true → o ≡ none
  is_none none e = refl
  is_none (some n) e = absurd (cc e)

  both : (a b : Bool) → (a && b) ≡ true → (a ≡ true) × (b ≡ true)
  both true b e = (refl, e)
  both false b e = absurd (cc e)

  found-IsReached :
      (full_name owner name : String) (s : S) (r : HookRepository)
      → split_full_name full_name ≡ some (owner, name)
      → find (is_target owner name) (rows s) ≡ some r
      → IsReached full_name s r
  found-IsReached full_name owner name s r parsed found =
      let (listed, test) = find-eq-some (is_target owner name) (rows s) {a = r} found in
      let (of_owner, rest) = both _ _ test in
      let (of_name, active) = both _ _ rest in
      let same_owner : r.owner ≡ owner = (text_eq.beq_iff r.owner owner).0 of_owner in
      let same_name : r.name ≡ name = (text_eq.beq_iff r.name name).0 of_name in
      (listed, parsed ∙ cc (same_owner, same_name), is_none r.installation_revoked_at active)

  abbrev pub IsKept : S → S → Type 0
  IsKept s t = (index.repositories t ≡ index.repositories s) × (index.jobs t ≡ index.jobs s)

  -- Nothing has changed, or one job of a repository that the event reaches was started.
  abbrev pub Pushes : String → S → S → Type 0
  Pushes full_name s t =
      IsKept s t
      ⊎ ((r : HookRepository) × (job : IndexJob) × IsReached full_name s r
          × IsStarted index r.id r.status s job t)

  start_incremental-Pushes :
      (full_name : String) (r : HookRepository) (s : S)
      → IsReached full_name s r
      → Ends
          (start_incremental services (some r) s)
          (λ done t. Pushes full_name s t)
          (λ e t. Pushes full_name s t)
  unfolding start_incremental
  start_incremental-Pushes full_name r s reached =
      Ends-try_then _ _ _ s (create_and_enqueue_index_job_lem index r.id r.status incremental s)
        (λ job t (terminal, begun). returned tt t refl (inr (r, job, reached, begun)))
        (λ e t left. caught e t (pushed e t left))
    where
      pushed :
          (e : Failure) (t : S)
          → IsUnchanged index r.id r.status s t
            ⊎ ((job : IndexJob) × (u : S) × IsStarted index r.id r.status s job t
                × (index.enqueue job u ≡ (err e, t)))
          → Pushes full_name s t
      pushed e t (inl kept) = inl kept
      pushed e t (inr (job, u, begun, refused)) = inr (r, job, reached, begun)

      caught :
          (e : Failure) (t : S)
          → Pushes full_name s t
          → Ends
              ((if is_already_indexing e then pure tt else raise e) t)
              (λ done u. Pushes full_name s u)
              (λ f u. Pushes full_name s u)
      caught e t h = elim (Bool-cases (is_already_indexing e)) [
        | inl benign ↦ rw benign (returned tt t refl h)
        | inr other ↦ rw other (threw e t refl h)
      ]

  push_to-Pushes :
      (full_name : String) (parsed : Option (String × String)) (s : S)
      → split_full_name full_name ≡ parsed
      → Ends
          (push_to services parsed s)
          (λ done t. Pushes full_name s t)
          (λ e t. Pushes full_name s t)
  unfolding push_to start_incremental
  push_to-Pushes full_name none s e = returned tt s refl (inl (refl, refl))
  push_to-Pushes full_name (some (owner, name)) s e =
      Ends-bind _ _ s (services.find_first_lem (is_target owner name) s)
        (λ found t (is_found, same). rw same (on_found found (sym is_found)))
        (λ f t same. inl (ap index.repositories same, ap index.jobs same))
    where
      on_found :
          (found : Option HookRepository)
          → find (is_target owner name) (rows s) ≡ found
          → Ends
              (start_incremental services found s)
              (λ done t. Pushes full_name s t)
              (λ e t. Pushes full_name s t)
      on_found none k = returned tt s refl (inl (refl, refl))
      on_found (some r) k =
          start_incremental-Pushes full_name r s (found-IsReached full_name owner name s r e k)

  -- A push starts nothing, or one job of a repository that has exactly the owner and the name of the event and
  -- whose installation is not revoked; that holds also of a push whose handler throws.
  pub handle_push_event_lem :
      (payload : GitHubPushEvent) (s : S)
      → Ends
          (handle_push_event services payload s)
          (λ done t. Pushes payload.full_name s t)
          (λ e t. Pushes payload.full_name s t)
  unfolding handle_push_event
  handle_push_event_lem payload s =
      push_to-Pushes payload.full_name (split_full_name payload.full_name) s refl

  -- The job of the event's head commit and of the row of the event's pull request.
  abbrev pub Queues : GitHubPullRequestEvent → S → S → Type 0
  Queues payload s t =
      (r : HookRepository) × (pull_request : HookPullRequest) × (id : String) × IsReached
        payload.full_name s r
      × (includes payload.action ("opened" ∷ "synchronize" ∷ []) ≡ true)
      × (pull_request.repository_id ≡ r.id)
      × (pull_request.github_pr_number ≡ payload.number)
      × (queued t ≡ job_of services payload r pull_request id ∷ queued s)

  queue_review-Queues :
      (payload : GitHubPullRequestEvent) (r : HookRepository) (s : S)
      → IsReached payload.full_name s r
      → includes payload.action ("opened" ∷ "synchronize" ∷ []) ≡ true
      → Ends
          (queue_review services payload (some r) s)
          (λ done t. Queues payload s t)
          (λ e t. queued t ≡ queued s)
  unfolding queue_review
  queue_review-Queues payload r s reached wanted =
      Ends-bind _ _ s (services.upsert_lem r.id payload s)
        (λ row t (of_repository, of_number, of_head, kept). Ends-gets services.random_uuid _ t (
          Ends-mono _
            (services.enqueue_lem (job_of services payload r row (services.random_uuid t)) t)
            (λ done u added. (
              r,
              row,
              services.random_uuid t,
              reached,
              wanted,
              of_repository,
              of_number,
              added ∙ ap (λ js. job_of services payload r row (services.random_uuid t) ∷ js) kept,
            ))
            (λ e u same. same ∙ kept)))
        (λ e t kept. kept)

  review_in-Queues :
      (payload : GitHubPullRequestEvent) (parsed : Option (String × String)) (s : S)
      → split_full_name payload.full_name ≡ parsed
      → includes payload.action ("opened" ∷ "synchronize" ∷ []) ≡ true
      → Ends
          (review_in services payload parsed s)
          (λ done t. (queued t ≡ queued s) ⊎ Queues payload s t)
          (λ e t. queued t ≡ queued s)
  unfolding review_in queue_review
  review_in-Queues payload none s e wanted = returned tt s refl (inl refl)
  review_in-Queues payload (some (owner, name)) s e wanted =
      Ends-bind _ _ s (services.find_first_lem (is_target owner name) s)
        (λ found t (is_found, same). rw same (on_found found (sym is_found)))
        (λ f t same. ap queued same)
    where
      on_found :
          (found : Option HookRepository)
          → find (is_target owner name) (rows s) ≡ found
          → Ends
              (queue_review services payload found s)
              (λ done t. (queued t ≡ queued s) ⊎ Queues payload s t)
              (λ e t. queued t ≡ queued s)
      on_found none k = returned tt s refl (inl refl)
      on_found (some r) k =
          Ends-mono _
            (queue_review-Queues payload r s (found-IsReached payload.full_name owner name s r e k)
              wanted)
            (λ done t h. inr h) (λ f t h. h)

  -- A pull request event queues nothing, or one review: of its head commit, for the row of its number in a
  -- repository that has exactly the owner and the name of the event and whose installation is not revoked, and
  -- only if the action is opened or synchronize. A handler that throws has queued nothing.
  pub handle_pull_request_event_lem :
      (payload : GitHubPullRequestEvent) (s : S)
      → Ends
          (handle_pull_request_event services payload s)
          (λ done t. (queued t ≡ queued s) ⊎ Queues payload s t)
          (λ e t. queued t ≡ queued s)
  unfolding handle_pull_request_event
  handle_pull_request_event_lem payload s =
      gate (includes payload.action ("opened" ∷ "synchronize" ∷ [])) refl
    where
      gate :
          (b : Bool)
          → includes payload.action ("opened" ∷ "synchronize" ∷ []) ≡ b
          → Ends
              ((if b
                  then review_in services payload (split_full_name payload.full_name)
                  else pure tt)
                s)
              (λ done t. (queued t ≡ queued s) ⊎ Queues payload s t)
              (λ e t. queued t ≡ queued s)
      gate true wanted = review_in-Queues payload (split_full_name payload.full_name) s refl wanted
      gate false other = returned tt s refl (inl refl)
