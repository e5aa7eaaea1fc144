-- ===== src/Websocket/Progress/Tests.antt =====
-- A repository that is parsed and then indexed, polled by callbacks that overlap; and a client that
-- subscribes again.
use code_trace.Prelude.{suc, ◌-◌, ◌≡◌, refl, false, Option, some, [], ◌∷◌, arith, String}
use code_trace.Auth.Sessions.{AccessTokenPayload}
use code_trace.Websocket.Progress.{
  IndexView, progress, complete, index_polling, review_polling, Poll, subscribed, answer, fired,
  answered, Reaches, begun, then_step, Socket, opened, start_poll, end_poll, refused,
  SubscribeMessage, handle_progress_subscription, subscription_reply,
}
use code_trace.Websocket.Progress.Polls.{poll_lem, IsPolled}

abbrev view : String → IndexView
view status = record { status = status; files_indexed = 1; chunks_indexed = 2 }

abbrev fire : Poll IndexView → Poll IndexView
fire p = record p { pending = suc p.pending }

abbrev reads : String → Poll IndexView → Poll IndexView
reads status p = answer index_polling (some (view status)) (record p { pending = p.pending - 1 })

-- Two callbacks under way that both read INDEXED: the client is told twice that it is complete.
abbrev overlapped : Poll IndexView
overlapped = record {
  last_seen = some (view "INDEXED");
  running = false;
  pending = 0;
  sent = complete ∷ complete ∷ progress (view "INDEXED") ∷ progress (view "PARSING") ∷ [];
}

overlap_test :
    reads "INDEXED" (reads "INDEXED" (fire (fire (reads "PARSING" (fire subscribed))))) ≡ overlapped
unfolding answer
overlap_test = refl

overlapped-Reaches : Reaches index_polling 2 overlapped
unfolding answer
overlapped-Reaches =
    let first = then_step _ _ begun (fired subscribed refl (omega arith)) in
    let parsing = then_step _ _ first (answered (fire subscribed) 0 (some (view "PARSING")) refl) in
    let p = reads "PARSING" (fire subscribed) in
    let two =
      then_step _ _ (then_step _ _ parsing (fired p refl (omega arith)))
        (fired (fire p) refl (omega arith)) in
    let q = answer index_polling (some (view "INDEXED")) (record (fire (fire p)) { pending = 1 }) in
    let one_read = then_step _ _ two (answered (fire (fire p)) 1 (some (view "INDEXED")) refl) in
    then_step _ _ one_read (answered q 0 (some (view "INDEXED")) refl)

poll_lem_example : IsPolled index_polling 2 overlapped × IsPolled review_polling 2 subscribed
poll_lem_example = poll_lem 2 overlapped subscribed overlapped-Reaches begun

-- A client that subscribes twice, and whose second poll ends.
abbrev again : Socket
again = end_poll 1 (start_poll (start_poll opened))

-- A callback of the first poll that ends after the second subscription empties the field of the second, so that
-- a third subscription leaves two intervals running.
late_end_test : (start_poll (end_poll 0 (start_poll (start_poll opened)))).running ≡ 2 ∷ 1 ∷ []
unfolding start_poll end_poll
late_end_test = refl

abbrev verified : String → Option AccessTokenPayload
verified token = some (record { user_id = "ann"; session_id = "s" })

abbrev message : SubscribeMessage
message = record { type = "subscribe-progress"; subject_id = "r"; token = "t" }

foreign_test :
    handle_progress_subscription verified (λ id. some "bob") (some message) opened
    ≡ (refused "Repository not found", opened)
unfolding handle_progress_subscription subscription_reply
foreign_test = refl
