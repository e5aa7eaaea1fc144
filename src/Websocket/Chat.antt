-- ===== src/Websocket/Chat.antt =====
-- chat-stream.handler.ts: a question over the socket, on the modelled `checkRateLimit` and
-- `askQuestion`. JSON.parse, the check of a token and the reads of the two tables are
-- parameters; what is sent is a value of the handler, so `ws.send` is taken to return.
pub mod Guarded
mod Tests
use code_trace.Prelude.{
  ℕ, String, ◌≡◌, Bool, true, false, Option, none, some, List, ◌==◌, text_eq, if◌then◌else◌,
}
use code_trace.Errors.{Failure, app_error, known_request, error, thrown}
use code_trace.Exec.{Exec, pure, gets, ◌>>=◌, try_then, Ends}
use code_trace.Auth.Sessions.{AccessTokenPayload}
use code_trace.Middlewares.RateLimit.{Redis, LimitOptions, check_rate_limit}
use code_trace.Review.Types.{Citation}
use code_trace.Chat.Ask.{AskServices, Answer, Message, ask_question}

abbrev pub chat_message_rate_limit : LimitOptions
chat_message_rate_limit = record { window_ms = 60000; max = 20 }

pub record ChatMessage : Type 0 where
  pub type : String
  pub repository_id : String
  pub conversation_id : String
  pub question : String
  pub token : String

-- What `ws.send` is given.
pub data Frame : Type 0 where
  error_frame : String → Frame
  complete : String → List Citation → Frame

-- `err instanceof Error ? err.message : fallback`
abbrev pub shown_error : String → Failure → String
shown_error fallback (app_error _ _ message) = message
shown_error fallback (known_request _ message) = message
shown_error fallback (error _ message) = message
shown_error fallback (thrown _) = fallback

-- A repository is read as its user, a conversation as its repository. Only `askQuestion` writes messages.
pub record ChatServices (S : Type 0) : Type 0 where
  pub ask : AskServices S
  pub redis : Redis S
  pub verify_token : String → Option AccessTokenPayload
  pub owner_of : S → String → Option String
  pub repository_of : S → String → Option String
  pub find_repository : String → Exec S (Option String)
  pub find_conversation : String → Exec S (Option String)
  pub is_open : S → Bool
  pub check_rate_limit_lem :
      (key : String) (opts : LimitOptions) (s : S)
      → ask.messages (check_rate_limit redis key opts s).1 ≡ ask.messages s
  pub find_repository_lem :
      (id : String) (s : S)
      → Ends
          (find_repository id s)
          (λ found t. (found ≡ owner_of s id) × (ask.messages t ≡ ask.messages s))
          (λ e t. ask.messages t ≡ ask.messages s)
  pub find_conversation_lem :
      (id : String) (s : S)
      → Ends
          (find_conversation id s)
          (λ found t. (found ≡ repository_of s id) × (ask.messages t ≡ ask.messages s))
          (λ e t. ask.messages t ≡ ask.messages s)

-- Neither absent nor of another owner: `!row || row.owner !== owner` fails.
abbrev pub belongs : Option String → String → Bool
belongs none owner = false
belongs (some found) owner = found == owner

module _ {S : Type 0} (services : ChatServices S) where
  open services use {ask, redis, verify_token, find_repository, find_conversation, is_open}

  abbrev pub reply : Frame → Exec S (Option Frame)
  reply frame = pure (some frame)

  -- `if (ws.readyState === ws.OPEN) ws.send(…)`
  unfoldable pub reply_if_open : Frame → Exec S (Option Frame)
  reply_if_open frame = do live ← gets is_open; if live then reply frame else pure none

  unfoldable pub ask_and_reply : ChatMessage → Exec S (Option Frame)
  ask_and_reply m =
      try_then (ask_question ask m.repository_id m.conversation_id m.question)
        (λ result. reply_if_open (complete result.answer result.citations))
        (λ e. reply_if_open (error_frame (shown_error "Chat failed" e)))

  unfoldable pub in_conversation : ChatMessage → Exec S (Option Frame)
  in_conversation m = do
    conversation ← find_conversation m.conversation_id
    (if belongs conversation m.repository_id
        then ask_and_reply m
        else reply (error_frame "Conversation not found"))

  unfoldable pub in_repository : ChatMessage → AccessTokenPayload → Exec S (Option Frame)
  in_repository m payload = do
    repository ← find_repository m.repository_id
    (if belongs repository payload.user_id
        then in_conversation m
        else reply (error_frame "Repository not found"))

  unfoldable pub within_limit : ChatMessage → AccessTokenPayload → Exec S (Option Frame)
  within_limit m payload = do
    allowed ← check_rate_limit redis payload.user_id chat_message_rate_limit
    if allowed then in_repository m payload else reply (error_frame "Too many requests")

  unfoldable pub for_user : ChatMessage → Option AccessTokenPayload → Exec S (Option Frame)
  for_user m none = reply (error_frame "Unauthorized")
  for_user m (some payload) = within_limit m payload

  -- The frame that is sent, if one is. A message that does not parse is `none`.
  unfoldable pub handle_chat_message : Option ChatMessage → Exec S (Option Frame)
  handle_chat_message none = reply (error_frame "Invalid JSON")
  handle_chat_message (some m) =
      if m.type == "chat" then for_user m (verify_token m.token) else pure none
