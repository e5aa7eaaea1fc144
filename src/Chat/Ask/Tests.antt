-- ===== src/Chat/Ask/Tests.antt =====
-- A question on one retrieved chunk, which the model cites between two citations of no chunk.
use code_trace.Prelude.{
  String, ◌≡◌, refl, none, some, List, [], ◌∷◌, ◌++◌, Has, All, inl, inr, lookup, insert,
  insert_all, show, show_within, digit, text_eq,
}
use code_trace.Errors.{ok}
use code_trace.Exec.{Ends, returned}
use code_trace.Retrieval.Types.{RetrievedChunk}
use code_trace.Chat.Citations.{
  chunk_by_file_and_lines, key_entries, citation_key, validate_citation, agrees,
}
use code_trace.Chat.Llm.{ChatCompletionResult}
use code_trace.Chat.Pattern.{match_all, match_citation, span_name, span_number, number, literal}
use code_trace.Chat.Ask.{
  AskServices, Message, ask_question, extract_citations, cited, valid_citations,
}
use code_trace.Chat.Ask.Answers.{Answers, LeavesPrefix, ask_question_lem}
use code_trace.Chat.Ask.Citing.{
  citation, Part, prose, citing, print, IsReadable, extract_citations-citation_key,
}
use code_trace.Chat.Ask.Printed.{IsName, HasNoBracket}

abbrev chunk : RetrievedChunk
chunk = record {
  id = "c";
  repository_id = "r";
  file_id = "f";
  symbol = "main";
  symbol_type = "FUNCTION";
  parent_symbol = none;
  language = "ts";
  start_line = 3;
  end_line = 14;
  content = "code";
  file_path = "src/a.ts";
}

abbrev text : String
text = "In [src/b.ts:1-2] and [src/a.ts:3-14]; see [src/a.ts:3-15]."

abbrev completion : ChatCompletionResult
completion = record {
  text = text;
  usage = record { prompt_tokens = 10; candidates_tokens = 5; total_tokens = 15 };
}

abbrev services : List RetrievedChunk → AskServices (List Message)
services found = record {
  messages = λ ms. ms;
  retrieve_context = λ repository_id question ms. (ok found, ms);
  generate_chat_completion = λ system prompt ms. (ok completion, ms);
  create_message = λ m ms. (ok tt, ms ++ m ∷ []);
  create_usage_log = λ entry ms. (ok tt, ms);
  random_uuid = λ ms. "u";
  now = λ ms. 0;
  chat_model = "gemini-2.5-flash";
  retrieve_context_lem = λ repository_id question ms. refl;
  generate_chat_completion_lem = λ system prompt ms. refl;
  create_usage_log_lem = λ entry ms. refl;
  create_message_lem = λ m ms. returned tt (ms ++ m ∷ []) refl refl;
}

valid_citations_test : valid_citations text (chunk ∷ []) ≡ citation "src/a.ts" 3 14 "c" ∷ []
unfolding valid_citations extract_citations cited match_all match_citation span_name span_number
    number literal chunk_by_file_and_lines key_entries citation_key validate_citation agrees lookup
    insert insert_all show show_within digit
valid_citations_test = refl

ask_question_lem_example :
    Ends
      (ask_question (services (chunk ∷ [])) "r" "v" "Where is main?" [])
      (Answers (services (chunk ∷ [])) "r" "v" "Where is main?" [])
      (λ e t. LeavesPrefix (services (chunk ∷ [])) "r" "v" "Where is main?" [] t)
ask_question_lem_example = ask_question_lem (services (chunk ∷ [])) "r" "v" "Where is main?" []

name : IsName "src/a.ts"
unfolding IsName
name = (
  refl,
  refl,
  (
    refl,
    refl,
    (refl, refl, (refl, refl, (refl, refl, (refl, refl, (refl, refl, (refl, refl, tt)))))),
  ),
)

no_bracket : HasNoBracket "In "
unfolding HasNoBracket
no_bracket = (refl, (refl, (refl, tt)))

found : lookup (citation_key "src/a.ts" 3 14) (chunk_by_file_and_lines (chunk ∷ [])) ≡ some "c"
unfolding chunk_by_file_and_lines key_entries citation_key lookup insert insert_all show show_within
    digit
found = refl

abbrev parts : List Part
parts = prose "In " ∷ citing "src/a.ts" 4 5 ∷ citing "src/a.ts" 3 14 ∷ []

readable : All IsReadable parts
readable = (no_bracket, ((name, λ e. cc e), ((name, λ e. cc e), tt)))

extract_citations-citation_key_example :
    Has
      (citation "src/a.ts" 3 14 "c")
      (extract_citations (print parts) (chunk_by_file_and_lines (chunk ∷ [])))
extract_citations-citation_key_example =
    (extract_citations-citation_key parts (chunk_by_file_and_lines (chunk ∷ []))
        (citation "src/a.ts" 3 14 "c") readable).1
      (inr (inr (inl refl)), found, λ e. cc e)
