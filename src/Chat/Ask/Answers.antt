-- ===== src/Chat/Ask/Answers.antt =====
-- What `askQuestion` returns and what it leaves in the conversation.
use code_trace.Prelude.{
  ℕ, String, ◌≡◌, refl, ◌∙◌, ap, ◌⊎◌, inl, inr, Bool, true, false, List, [], ◌∷◌, ◌++◌, keep,
  length, ◌+++◌, All, Bool-cases, nat_eq, arith,
}
use code_trace.Errors.{ok}
use code_trace.Exec.{Exec, ◌>>=◌, pure, Ends, returned, Ends-bind, Ends-gets, Ends-seen, Ends-state}
use code_trace.Retrieval.Types.{RetrievedChunk}
use code_trace.Chat.Citations.{
  Cites, validate_citation, validate_citation-Cites, chunk_by_file_and_lines,
}
use code_trace.Chat.Llm.{ChatCompletionResult}
use code_trace.Chat.Ask.{
  AskServices, Answer, asked, answered, no_evidence, ask_question, answer_without_evidence,
  answer_from, record_answer, extract_citations, valid_citations, answer_prompt, context_block,
  usage_of,
}

All-keep :
    {A : Type 0} (p : A → Bool) (P : A → Type 0) (xs : List A)
    → ((x : A) → p x ≡ true → P x)
    → All P (keep p xs)
All-keep p P [] h = tt
All-keep p P (x ∷ xs) h = elim (Bool-cases (p x)) [
  | inl e ↦ rw e (h x e, All-keep p P xs h)
  | inr e ↦ rw e (All-keep p P xs h)
]

valid_citations-Cites :
    (text : String) (retrieved : List RetrievedChunk)
    → All (Cites retrieved) (valid_citations text retrieved)
unfolding valid_citations
valid_citations-Cites text retrieved =
    All-keep (λ c. validate_citation c retrieved) (Cites retrieved)
      (extract_citations text (chunk_by_file_and_lines retrieved))
      (λ c h. validate_citation-Cites c retrieved h)

module _ {S : Type 0} (services : AskServices S)
    (repository_id conversation_id question : String) where
  open services use {
    messages, retrieve_context, generate_chat_completion, create_message, create_usage_log,
  }

  -- The question and behind it the answer, with its citations.
  abbrev pub HoldsAnswer : S → List RetrievedChunk → Answer → S → Type 0
  HoldsAnswer s retrieved a t =
      messages t
      ≡ (messages s ++ asked conversation_id question ∷ [])
        ++ answered conversation_id a.answer a.citations (length retrieved) ∷ []

  abbrev pub HoldsQuestion : S → S → Type 0
  HoldsQuestion s t = messages t ≡ messages s ++ asked conversation_id question ∷ []

  abbrev pub Answers : S → Answer → S → Type 0
  Answers s a t =
      (retrieved : List RetrievedChunk) × (u : S) × (retrieve_context repository_id question s
        ≡ (ok retrieved, u))
      × All (Cites retrieved) a.citations
      × (length retrieved ≡ 0 → (a.answer ≡ no_evidence) × (a.citations ≡ []))
      × HoldsAnswer s retrieved a t

  -- A failure leaves nothing, the question alone, or both with only the usage log missing.
  abbrev pub LeavesPrefix : S → S → Type 0
  LeavesPrefix s t =
      (messages t ≡ messages s)
      ⊎ HoldsQuestion s t
      ⊎ ((retrieved : List RetrievedChunk) × (a : Answer) × HoldsAnswer s retrieved a t)

  two_messages :
      (retrieved : List RetrievedChunk) (a : Answer) (k : Exec S Answer) (s u : S)
      {P : Answer → S → Type 0}
      → messages u ≡ messages s
      → ((t : S) → HoldsAnswer s retrieved a t → Ends (k t) P (λ e v. LeavesPrefix s v))
      → Ends
          ((create_message (asked conversation_id question) >>= λ done.
              create_message (answered conversation_id a.answer a.citations (length retrieved))
              >>= λ done. k)
            u)
          P
          (λ e v. LeavesPrefix s v)
  two_messages retrieved a k s u same rest =
      Ends-bind _ _ u (services.create_message_lem (asked conversation_id question) u)
        (λ done t first.
          let first_here = first ∙ ap (λ ms. ms ++ asked conversation_id question ∷ []) same in
          Ends-bind _ _ t (services.create_message_lem _ t)
            (λ done v second. rest v (
              second
              ∙ ap
                  (λ ms.
                    ms ++ answered conversation_id a.answer a.citations (length retrieved) ∷ [])
                  first_here))
            (λ e v kept. inr (inl (kept ∙ first_here))))
        (λ e t kept. inl (kept ∙ same))

  answer_without_evidence-Ends :
      (s u : S)
      → retrieve_context repository_id question s ≡ (ok [], u)
      → messages u ≡ messages s
      → Ends
          (answer_without_evidence services repository_id conversation_id question u)
          (Answers s)
          (λ e t. LeavesPrefix s t)
  unfolding answer_without_evidence
  answer_without_evidence-Ends s u found same =
      two_messages [] none_found (pure none_found) s u same
        (λ t holds. returned none_found t refl ([], u, found, tt, (λ h. (refl, refl)), holds))
    where
      none_found : Answer
      none_found = record { answer = no_evidence; citations = [] }

  record_answer-Ends :
      (retrieved : List RetrievedChunk) (result : ChatCompletionResult) (latency : ℕ) (s u v : S)
      → retrieve_context repository_id question s ≡ (ok retrieved, u)
      → nat_eq (length retrieved) 0 ≡ false
      → messages v ≡ messages s
      → Ends
          (record_answer services repository_id conversation_id question retrieved result latency v)
          (Answers s)
          (λ e t. LeavesPrefix s t)
  unfolding record_answer
  record_answer-Ends retrieved result latency s u v found some_found same =
      two_messages retrieved a _ s v same (λ t holds. Ends-gets services.random_uuid _ t (
        Ends-bind _ _ t
          (Ends-state _ (λ w. messages w ≡ messages t)
            (services.create_usage_log_lem
              (usage_of services repository_id conversation_id question retrieved a.citations result
                latency (services.random_uuid t))
              t))
          (λ done w same. returned a w refl (
            retrieved,
            u,
            found,
            valid_citations-Cites result.text retrieved,
            (λ e. absurd (some_chunk e)),
            same ∙ holds,
          ))
          (λ e w same. inr (inr (retrieved, a, same ∙ holds)))))
    where
      some_chunk : length retrieved ≡ 0 → ⊥
      some_chunk e = absurd (cc (rw e at some_found))

      a : Answer
      a = record { answer = result.text; citations = valid_citations result.text retrieved }

  answer_from-Ends :
      (retrieved : List RetrievedChunk) (s u : S)
      → retrieve_context repository_id question s ≡ (ok retrieved, u)
      → nat_eq (length retrieved) 0 ≡ false
      → messages u ≡ messages s
      → Ends
          (answer_from services repository_id conversation_id question retrieved u)
          (Answers s)
          (λ e t. LeavesPrefix s t)
  unfolding answer_from
  answer_from-Ends retrieved s u found some_found same = Ends-gets services.now _ u (
      Ends-bind _ _ u
        (Ends-state _ (λ w. messages w ≡ messages u)
          (services.generate_chat_completion_lem answer_prompt
            ("Context:\n" +++ context_block retrieved +++ "\n\nQuestion: " +++ question) u))
        (λ result v kept.
          Ends-gets services.now _ v
            (record_answer-Ends retrieved result _ s u v found some_found (kept ∙ same)))
        (λ e v kept. inl (kept ∙ same)))

  -- An answer that is returned stands in the conversation behind its question, and every citation of it names
  -- a retrieved chunk, its file and exactly its lines; when nothing was retrieved, it is the fixed sentence and
  -- cites nothing. A call that throws has written nothing, the question alone, or the question and an answer.
  pub ask_question_lem :
      (s : S)
      → Ends
          (ask_question services repository_id conversation_id question s)
          (Answers s)
          (λ e t. LeavesPrefix s t)
  unfolding ask_question
  ask_question_lem s =
      Ends-bind _ _ s
        (Ends-seen _ (
          Ends-state _ (λ w. messages w ≡ messages s)
            (services.retrieve_context_lem repository_id question s)))
        (λ retrieved u (found, kept). elim (Bool-cases (nat_eq (length retrieved) 0)) [
          | inl e ↦ rw e (
              answer_without_evidence-Ends s u (found ∙ ap (λ r. (ok r, u)) (no_chunk retrieved e))
                kept)
          | inr e ↦ rw e (answer_from-Ends retrieved s u found e kept)
        ])
        (λ e t (thrown_here, kept). inl kept)
    where
      no_chunk : (xs : List RetrievedChunk) → nat_eq (length xs) 0 ≡ true → xs ≡ []
      no_chunk [] e = refl
      no_chunk (x ∷ xs) e = absurd (ground arith)
