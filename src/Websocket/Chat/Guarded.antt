-- ===== src/Websocket/Chat/Guarded.antt =====
-- Whose questions are answered.
use code_trace.Prelude.{
  String, ◌≡◌, refl, sym, ◌∙◌, ap, subst, ◌⊎◌, inl, inr, true, Option, none, some, ◌==◌, text_eq,
  Bool-cases,
}
use code_trace.Errors.{Failure, ok}
use code_trace.Exec.{
  Ends, returned, Ends-bind, Ends-gets, Ends-seen, Ends-state, Ends-mono, Ends-try_then,
}
use code_trace.Auth.Sessions.{AccessTokenPayload}
use code_trace.Middlewares.RateLimit.{check_rate_limit}
use code_trace.Chat.Ask.{Answer}
use code_trace.Chat.Ask.Answers.{Answers, LeavesPrefix, ask_question_lem}
use code_trace.Websocket.Chat.{
  ChatMessage, ChatServices, Frame, error_frame, complete, chat_message_rate_limit, belongs,
  shown_error, reply_if_open, ask_and_reply, in_conversation, in_repository, within_limit, for_user,
  handle_chat_message,
}

module _ {S : Type 0} (services : ChatServices S) (m : ChatMessage) where
  open services use {ask, redis, verify_token, find_repository, owner_of, repository_of, is_open}
  open ask use {messages}

  abbrev Kept : S → S → Type 0
  Kept s t = messages t ≡ messages s

  -- A frame for an open socket, and none for any other.
  abbrev pub IfOpen : Frame → Option Frame → Type 0
  IfOpen frame sent = (sent ≡ some frame) ⊎ (sent ≡ none)

  -- The question was put in state `s`, and the reply is its answer or its failure.
  abbrev pub Asks : S → Option Frame → S → Type 0
  Asks s sent t =
      ((a : Answer) × Answers ask m.repository_id m.conversation_id m.question s a t
        × IfOpen (complete a.answer a.citations) sent)
      ⊎ (LeavesPrefix ask m.repository_id m.conversation_id m.question s t
          × ((e : Failure) × IfOpen (error_frame (shown_error "Chat failed" e)) sent))

  reply_if_open-Ends :
      (frame : Frame) (s : S)
      → Ends (reply_if_open services frame s) (λ sent t. (t ≡ s) × IfOpen frame sent) (λ e t. ⊥)
  unfolding reply_if_open
  reply_if_open-Ends frame s = Ends-gets is_open _ s (elim (Bool-cases (is_open s)) [
    | inl e ↦ rw e (returned (some frame) s refl (refl, inl refl))
    | inr e ↦ rw e (returned none s refl (refl, inr refl))
  ])

  ask_and_reply-Ends : (s : S) → Ends (ask_and_reply services m s) (Asks s) (λ e t. ⊥)
  unfolding ask_and_reply
  ask_and_reply-Ends s =
      Ends-try_then _ _ _ s (ask_question_lem ask m.repository_id m.conversation_id m.question s)
        (λ a t answers.
          Ends-mono _ (reply_if_open-Ends (complete a.answer a.citations) t)
            (λ sent u (same, replied). inl (
              a,
              subst (λ v. Answers ask m.repository_id m.conversation_id m.question s a v) (sym same)
                  answers,
              replied,
            ))
            (λ e u h. h))
        (λ e t left.
          Ends-mono _ (reply_if_open-Ends (error_frame (shown_error "Chat failed" e)) t)
            (λ sent u (same, replied). inr (
              subst (λ v. LeavesPrefix ask m.repository_id m.conversation_id m.question s v)
                  (sym same) left,
              (e, replied),
            ))
            (λ e u h. h))

  -- What was read before the question: a token of a user within the limit, a repository of that user, and a
  -- conversation of that repository. No message was written until then.
  abbrev pub Permitted : S → S → Type 0
  Permitted s t =
      (payload : AccessTokenPayload) × (u : S) × (v : S) × (verify_token m.token ≡ some payload)
      × (check_rate_limit redis payload.user_id chat_message_rate_limit s ≡ (ok true, u))
      × (find_repository m.repository_id u ≡ (ok (some payload.user_id), v))
      × (owner_of u m.repository_id ≡ some payload.user_id)
      × (repository_of v m.conversation_id ≡ some m.repository_id)
      × (messages t ≡ messages s)

  abbrev pub Handles : S → Option Frame → S → Type 0
  Handles s sent t = (messages t ≡ messages s) ⊎ ((w : S) × Permitted s w × Asks w sent t)

  belongs-some :
      (found : Option String) (owner : String) → belongs found owner ≡ true → found ≡ some owner
  belongs-some none owner h = absurd (cc h)
  belongs-some (some x) owner h = ap some ((text_eq.beq_iff x owner).0 h)

  in_conversation-Ends :
      (s v : S)
      → Kept s v
      → Ends
          (in_conversation services m v)
          (λ sent t.
            Kept s t
            ⊎ ((w : S) × (repository_of v m.conversation_id ≡ some m.repository_id)
                × Kept s w
                × Asks w sent t))
          (λ e t. Kept s t)
  unfolding in_conversation
  in_conversation-Ends s v kept =
      Ends-bind _ _ v (services.find_conversation_lem m.conversation_id v)
        (λ found w (is_found, same). elim (Bool-cases (belongs found m.repository_id)) [
          | inl e ↦ rw e (
              Ends-mono _ (ask_and_reply-Ends w)
                (λ sent t asks.
                  inr (w, sym is_found ∙ belongs-some found m.repository_id e, same ∙ kept, asks))
                (λ f t h. absurd h))
          | inr e ↦
              rw e
                (returned (some (error_frame "Conversation not found")) w refl (inl (same ∙ kept)))
        ])
        (λ e t same. same ∙ kept)

  in_repository-Ends :
      (s u : S) (payload : AccessTokenPayload)
      → Kept s u
      → Ends
          (in_repository services m payload u)
          (λ sent t.
            Kept s t
            ⊎ ((v : S) × (w : S) × (find_repository m.repository_id u
                  ≡ (ok (some payload.user_id), v))
                × (owner_of u m.repository_id ≡ some payload.user_id)
                × (repository_of v m.conversation_id ≡ some m.repository_id)
                × Kept s w
                × Asks w sent t))
          (λ e t. Kept s t)
  unfolding in_repository
  in_repository-Ends s u payload kept =
      Ends-bind _ _ u (Ends-seen _ (services.find_repository_lem m.repository_id u))
        (λ found v (read, (is_found, same)). elim (Bool-cases (belongs found payload.user_id)) [
          | inl e ↦ rw e (
              Ends-mono _ (in_conversation-Ends s v (same ∙ kept))
                (λ sent t handled. elim handled [
                  | inl left ↦ inl left
                  | inr (w, of_repository, before, asks) ↦
                      let owner = belongs-some found payload.user_id e in
                      inr (
                        v,
                        w,
                        read ∙ ap (λ o. (ok o, v)) owner,
                        sym is_found ∙ owner,
                        of_repository,
                        before,
                        asks,
                      )
                ])
                (λ f t h. h))
          | inr e ↦
              rw e (returned (some (error_frame "Repository not found")) v refl (inl (same ∙ kept)))
        ])
        (λ e t (failed, same). same ∙ kept)

  for_user-Ends :
      (s : S) (user : Option AccessTokenPayload)
      → verify_token m.token ≡ user
      → Ends (for_user services m user s) (Handles s) (λ e t. Kept s t)
  unfolding for_user within_limit
  for_user-Ends s none e = returned (some (error_frame "Unauthorized")) s refl (inl refl)
  for_user-Ends s (some payload) is_user =
      Ends-bind _ _ s
        (Ends-seen _ (
          Ends-state _ (Kept s)
            (services.check_rate_limit_lem payload.user_id chat_message_rate_limit s)))
        (λ answer u (checked, kept). elim (Bool-cases answer) [
          | inl e ↦ rw e (
              Ends-mono _ (in_repository-Ends s u payload kept)
                (λ sent t handled. elim handled [
                  | inl left ↦ inl left
                  | inr (v, w, read, owned, of_repository, before, asks) ↦ inr (
                    w,
                    (
                      payload,
                      u,
                      v,
                      is_user,
                      checked ∙ ap (λ b. (ok b, u)) e,
                      read,
                      owned,
                      of_repository,
                      before,
                    ),
                    asks,
                  )
                ])
                (λ f t h. h))
          | inr e ↦ rw e (returned (some (error_frame "Too many requests")) u refl (inl kept))
        ])
        (λ e t (failed, kept). kept)

  -- A chat message writes no message to any conversation, unless its token is that of a user within the rate
  -- limit, its repository is that user's and its conversation is of that repository; then the question is put,
  -- and what is sent, if anything, is the stored answer with its citations or the failure. If the handler
  -- throws, no message was written.
  pub handle_chat_message_lem :
      (s : S)
      → Ends (handle_chat_message services (some m) s) (Handles s) (λ e t. messages t ≡ messages s)
  unfolding handle_chat_message
  handle_chat_message_lem s = elim (Bool-cases (m.type == "chat")) [
    | inl e ↦ rw e (for_user-Ends s (verify_token m.token) refl)
    | inr e ↦ rw e (returned none s refl (inl refl))
  ]
