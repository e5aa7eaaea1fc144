-- ===== src/Websocket/Progress.antt =====
-- index-progress.handler.ts and pr-review-progress.handler.ts. The two poll a row in the same way: `V` is
-- what they read of it, and only the first stops when the row is gone. The callback of an interval awaits
-- the database, so that several may be under way at once; one that is under way when its interval is
-- cleared still ends.
mod Views
mod Polls
mod Sockets
mod Tests
use code_trace.Prelude.{
  ℕ, suc, ◌+◌, ◌-◌, ◌<◌, String, ◌≡◌, Bool, true, false, not, ◌&&◌, ◌||◌, Option, none, some, List,
  [], ◌∷◌, includes, keep, nat_eq, ◌==◌, Eq, text_eq, number_eq, if◌then◌else◌,
}
use code_trace.Auth.Sessions.{AccessTokenPayload}

-- `{ status, filesIndexed, chunksIndexed }`
pub record IndexView : Type 0 where
  pub status : String
  pub files_indexed : ℕ
  pub chunks_indexed : ℕ

-- `{ status, riskScore, riskLevel }`
pub record ReviewView : Type 0 where
  pub status : String
  pub risk_score : Option ℕ
  pub risk_level : Option String

abbrev pub same_option : {A : Type 0} ⦃e : Eq A⦄ → Option A → Option A → Bool
same_option none none = true
same_option none (some b) = false
same_option (some a) none = false
same_option (some a) (some b) = a == b

-- The negation of the three tests behind `!lastSeen ||`.
abbrev pub same_index_view : IndexView → IndexView → Bool
same_index_view a b =
    a.status == b.status
    && (a.files_indexed == b.files_indexed && a.chunks_indexed == b.chunks_indexed)

abbrev pub same_review_view : ReviewView → ReviewView → Bool
same_review_view a b =
    a.status == b.status
    && (same_option a.risk_score b.risk_score && same_option a.risk_level b.risk_level)

abbrev pub is_terminal_index : IndexView → Bool
is_terminal_index v = includes v.status ("INDEXED" ∷ "FAILED" ∷ [])

abbrev pub is_terminal_review : ReviewView → Bool
is_terminal_review v = includes v.status ("COMPLETE" ∷ "FAILED" ∷ [])

pub data ProgressMessage (V : Type 0) : Type 0 where
  progress : V → ProgressMessage V
  complete : ProgressMessage V

-- What the two handlers differ in.
pub record Polling (V : Type 0) : Type 0 where
  pub same_view : V → V → Bool
  pub is_terminal : V → Bool
  pub stops_when_gone : Bool

abbrev pub index_polling : Polling IndexView
index_polling = record {
  same_view = same_index_view;
  is_terminal = is_terminal_index;
  stops_when_gone = true;
}

abbrev pub review_polling : Polling ReviewView
review_polling = record {
  same_view = same_review_view;
  is_terminal = is_terminal_review;
  stops_when_gone = false;
}

-- One subscription: its `lastSeen`, whether its interval runs, how many callbacks are under way, and the
-- messages, the newest first.
pub record Poll (V : Type 0) : Type 0 where
  pub last_seen : Option V
  pub running : Bool
  pub pending : ℕ
  pub sent : List (ProgressMessage V)

abbrev pub subscribed : {V : Type 0} → Poll V
subscribed = record { last_seen = none; running = true; pending = 0; sent = [] }

module _ {V : Type 0} (polling : Polling V) where
  open polling use {same_view, is_terminal, stops_when_gone}

  abbrev pub has_changed : Option V → V → Bool
  has_changed none v = true
  has_changed (some old) v = not (same_view old v)

  abbrev pub report : V → Poll V → Poll V
  report v p =
      if has_changed p.last_seen v
      then record p { last_seen = some v; sent = progress v ∷ p.sent }
      else p

  abbrev pub finish : V → Poll V → Poll V
  finish v p = if is_terminal v then record p { running = false; sent = complete ∷ p.sent } else p

  -- the callback behind its `await`, on the row that it read
  unfoldable pub answer : Option V → Poll V → Poll V
  answer none p = if stops_when_gone then record p { running = false } else p
  answer (some v) p = finish v (report v p)

  -- The interval fires, a callback gets its row, or the socket closes. At most `limit` callbacks are
  -- under way at once.
  pub data Step (limit : ℕ) : Poll V → Poll V → Type 0 where
    fired :
        (p : Poll V)
        → p.running ≡ true
        → p.pending < limit
        → Step limit p (record p { pending = suc p.pending })
    answered :
        (p : Poll V) (n : ℕ) (row : Option V)
        → p.pending ≡ suc n
        → Step limit p (answer row (record p { pending = n }))
    closed : (p : Poll V) → Step limit p (record p { running = false })

  pub data Reaches (limit : ℕ) : Poll V → Type 0 where
    begun : Reaches limit subscribed
    then_step : (p q : Poll V) → Reaches limit p → Step limit p q → Reaches limit q

-- The intervals of a socket: the fields `__progressInterval` and `__progressCloseListener`, which
-- intervals run, and which listeners "close" has. A listener has the number of its interval.
pub record Socket : Type 0 where
  pub interval : Option ℕ
  pub close_listener : Option ℕ
  pub running : List ℕ
  pub listeners : List ℕ
  pub next : ℕ

abbrev pub opened : Socket
opened = record { interval = none; close_listener = none; running = []; listeners = []; next = 0 }

abbrev pub remove : ℕ → List ℕ → List ℕ
remove i xs = keep (λ j. not (j == i)) xs

abbrev pub remove_field : Option ℕ → List ℕ → List ℕ
remove_field none xs = xs
remove_field (some i) xs = remove i xs

-- from the test of `__progressInterval` to the end of the handler
unfoldable pub start_poll : Socket → Socket
start_poll s = record {
  interval = some s.next;
  close_listener = some s.next;
  running = s.next ∷ remove_field s.interval s.running;
  listeners = s.next ∷ remove_field s.close_listener s.listeners;
  next = suc s.next;
}

-- what the callback of an interval does to the socket when its row has a terminal status
unfoldable pub end_poll : ℕ → Socket → Socket
end_poll i s = record s { interval = none; running = remove i s.running }

-- and when its row is gone
unfoldable pub drop_poll : ℕ → Socket → Socket
drop_poll i s = record s { running = remove i s.running }

pub record SubscribeMessage : Type 0 where
  pub type : String
  pub subject_id : String
  pub token : String

pub data Reply : Type 0 where
  refused : String → Reply
  ignored started : Reply

-- The guards of a handler: the parsed message, the check of its token, and the user who owns the row that
-- it names, if there is one.
abbrev pub owner_reply : String → String → Option String → Reply
owner_reply not_found user_id none = refused not_found
owner_reply not_found user_id (some owner) = if owner == user_id then started else refused not_found

abbrev pub token_reply :
    String → (String → Option String) → String → Option AccessTokenPayload → Reply
token_reply not_found owner_of subject_id none = refused "Unauthorized"
token_reply not_found owner_of subject_id (some payload) =
    owner_reply not_found payload.user_id (owner_of subject_id)

unfoldable pub subscription_reply :
    String
    → String
    → (String → Option AccessTokenPayload)
    → (String → Option String)
    → Option SubscribeMessage
    → Reply
subscription_reply type not_found verify owner_of none = refused "Invalid JSON"
subscription_reply type not_found verify owner_of (some message) =
    if message.type == type
    then token_reply not_found owner_of message.subject_id (verify message.token)
    else ignored

abbrev pub poll_if_started : Reply → Socket → Socket
poll_if_started (refused _) s = s
poll_if_started ignored s = s
poll_if_started started s = start_poll s

module _ (verify : String → Option AccessTokenPayload) where
  unfoldable pub handle_progress_subscription :
      (String → Option String) → Option SubscribeMessage → Socket → Reply × Socket
  handle_progress_subscription repository_owner message s =
      let reply =
        subscription_reply "subscribe-progress" "Repository not found" verify repository_owner
          message in
      (reply, poll_if_started reply s)

  unfoldable pub handle_pr_review_progress_subscription :
      (String → Option String) → Option SubscribeMessage → Socket → Reply × Socket
  handle_pr_review_progress_subscription pull_request_owner message s =
      let reply =
        subscription_reply "subscribe-pr-review-progress" "Pull request not found" verify
          pull_request_owner message in
      (reply, poll_if_started reply s)
