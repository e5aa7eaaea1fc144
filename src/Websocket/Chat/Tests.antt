-- ===== src/Websocket/Chat/Tests.antt =====
-- Ann asks in the conversation of her repository; nothing is found.
use code_trace.Prelude.{
  String, ◌≡◌, refl, true, Option, none, some, List, [], ◌∷◌, ◌++◌, text_eq, ◌==◌, if◌then◌else◌,
  ◌+◌, arith,
}
use native.Mathlib.Nat.{le_refl}
use code_trace.Errors.{ok}
use code_trace.Exec.{◌>>=◌, Ends, returned, try_then}
use code_trace.Middlewares.RateLimit.{
  Counter, live_at, incremented, expiring, Redis, LimitOptions, check_rate_limit, expire_first,
}
use code_trace.Chat.Ask.{AskServices, Message, no_evidence, ask_question, answer_without_evidence}
use code_trace.Websocket.Chat.{
  ChatMessage, ChatServices, complete, handle_chat_message, for_user, within_limit, in_repository,
  in_conversation, ask_and_reply, reply_if_open,
}
use code_trace.Websocket.Chat.Guarded.{Handles, handle_chat_message_lem}

record Memory : Type 0 where
  messages : List Message
  counters : String → Option Counter

abbrev set_counter : String → Option Counter → Memory → Memory
set_counter key o s = record s { counters = λ j. if j == key then o else s.counters j }

set_counter_lem :
    (key : String) (o : Option Counter) (s : Memory) → (set_counter key o s).counters key ≡ o
set_counter_lem key o s = rw ((text_eq.beq_iff key key).1 refl) refl

abbrev redis : Redis Memory
redis = record {
  now = λ s. 0;
  stored = λ s key. s.counters key;
  incr = λ key s.
      let c = incremented (live_at (s.counters key) 0) in (ok c.value, set_counter key (some c) s);
  pexpire_nx = λ key window_ms s.
      (ok tt, set_counter key (expiring (live_at (s.counters key) 0) (0 + window_ms)) s);
  incr_lem = λ key s. returned _ _ refl (0, le_refl 0, le_refl 0, refl, set_counter_lem key _ s);
  pexpire_nx_lem =
      λ key window_ms s. returned tt _ refl (0, le_refl 0, le_refl 0, set_counter_lem key _ s);
}

abbrev ask : AskServices Memory
ask = record {
  messages = λ s. s.messages;
  retrieve_context = λ repository_id question s. (ok [], s);
  generate_chat_completion = λ system prompt s. (
    ok (record {
      text = prompt;
      usage = record { prompt_tokens = 1; candidates_tokens = 1; total_tokens = 2 };
    }),
    s,
  );
  create_message = λ m s. (ok tt, record s { messages = s.messages ++ m ∷ [] });
  create_usage_log = λ entry s. (ok tt, s);
  random_uuid = λ s. "u";
  now = λ s. 0;
  chat_model = "gemini-2.5-flash";
  retrieve_context_lem = λ repository_id question s. refl;
  generate_chat_completion_lem = λ system prompt s. refl;
  create_usage_log_lem = λ entry s. refl;
  create_message_lem = λ m s. returned tt _ refl refl;
}

keeps_messages :
    (key : String) (opts : LimitOptions) (s : Memory)
    → (check_rate_limit redis key opts s).1.messages ≡ s.messages
unfolding check_rate_limit expire_first ◌>>=◌
keeps_messages key opts s = ground arith

abbrev services : ChatServices Memory
services = record {
  ask = ask;
  redis = redis;
  verify_token = λ token. some (record { user_id = token; session_id = "s" });
  owner_of = λ s id. some "ann";
  repository_of = λ s id. some "r";
  find_repository = λ id s. (ok (some "ann"), s);
  find_conversation = λ id s. (ok (some "r"), s);
  is_open = λ s. true;
  check_rate_limit_lem = keeps_messages;
  find_repository_lem = λ id s. returned _ s refl (refl, refl);
  find_conversation_lem = λ id s. returned _ s refl (refl, refl);
}

abbrev message : ChatMessage
message = record {
  type = "chat";
  repository_id = "r";
  conversation_id = "v";
  question = "Where is main?";
  token = "ann";
}

abbrev start : Memory
start = record { messages = []; counters = λ key. none }

replied :
    (handle_chat_message services (some message) start).0 ≡ ok (some (complete no_evidence []))
unfolding handle_chat_message for_user within_limit in_repository in_conversation ask_and_reply
    reply_if_open check_rate_limit expire_first ask_question answer_without_evidence try_then ◌>>=◌
replied = refl

handle_chat_message_lem_example :
    Ends
      (handle_chat_message services (some message) start)
      (Handles services message start)
      (λ e t. t.messages ≡ start.messages)
handle_chat_message_lem_example = handle_chat_message_lem services message start
