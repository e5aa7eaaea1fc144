-- ===== src/Websocket/Progress/Polls.antt =====
-- What one subscription sends, however its callbacks overlap.
use code_trace.Prelude.{
  ℕ, suc, ◌+◌, ◌≤◌, ◌≡◌, ◌≢◌, ◌↔◌, refl, sym, ◌∙◌, ap, inl, inr, Bool, true, false, Option, none,
  some, List, [], ◌∷◌, arith, if◌then◌else◌, Bool-cases, text_eq, number_eq,
}
use code_trace.Websocket.Progress.{
  IndexView, ReviewView, index_polling, review_polling, ProgressMessage, progress, complete,
  Polling, Poll, has_changed, report, finish, answer, Step, fired, answered, closed, Reaches, begun,
  then_step,
}
use code_trace.Websocket.Progress.Views.{same_index_view_iff, same_review_view_iff}

module _ {V : Type 0} where
  -- How many of the messages say that the subject is complete.
  pub completes : List (ProgressMessage V) → ℕ
  completes [] = 0
  completes (progress v ∷ ms) = completes ms
  completes (complete ∷ ms) = suc (completes ms)

  -- The view of the newest progress message.
  pub newest : List (ProgressMessage V) → Option V
  newest [] = none
  newest (progress v ∷ ms) = some v
  newest (complete ∷ ms) = newest ms

  -- Each progress message tells another view than the one before it.
  pub HasNoRepeat : List (ProgressMessage V) → Type 0
  unfolding newest
  HasNoRepeat [] = Unit
  HasNoRepeat (progress v ∷ ms) = (newest ms ≢ some v) × HasNoRepeat ms
  HasNoRepeat (complete ∷ ms) = HasNoRepeat ms

  -- No view is told twice in a row, a running interval has not said that the subject is complete, that is said
  -- at most `limit` times, and once a callback has read a view the newest progress message is that view.
  abbrev pub IsPolled : Polling V → ℕ → Poll V → Type 0
  IsPolled polling limit p =
      HasNoRepeat p.sent
      × (p.running ≡ true → completes p.sent ≡ 0)
      × (completes p.sent ≤ limit)
      × ((n : ℕ) (v : V)
          → newest (answer polling (some v) (record p { pending = n })).sent ≡ some v)

module _ {V : Type 0} (polling : Polling V)
    (same_view_iff : (a b : V) → (polling.same_view a b ≡ true) ↔ (a ≡ b)) where
  open polling use {is_terminal, stops_when_gone}

  changed-ne : (o : Option V) (v : V) → has_changed polling o v ≡ true → o ≢ some v
  changed-ne none v h e = cc e
  changed-ne (some old) v h e = cc (h, (same_view_iff old v).1 (cc e))

  unchanged-eq : (o : Option V) (v : V) → has_changed polling o v ≡ false → o ≡ some v
  unchanged-eq none v h = cc h
  unchanged-eq (some old) v h = ap some ((same_view_iff old v).0 (ground (arith, h)))

  -- `due` more messages that the subject is complete would still be within the limit.
  record IsSound (limit due : ℕ) (p : Poll V) : Type 0 where
    seen : newest p.sent ≡ p.last_seen
    changing : HasNoRepeat p.sent
    open_end : p.running ≡ true → completes p.sent ≡ 0
    bounded : completes p.sent + p.pending + due ≤ limit

  report-IsSound :
      (limit due : ℕ) (v : V) (p : Poll V)
      → IsSound limit due p
      → IsSound limit due (report polling v p)
  unfolding newest HasNoRepeat completes
  report-IsSound limit due v p sound = elim (Bool-cases (has_changed polling p.last_seen v)) [
    | inr same ↦ rw same sound
    | inl changed ↦ rw changed (record {
      seen = refl;
      changing = (λ e. changed-ne p.last_seen v changed (sym sound.seen ∙ e), sound.changing);
      open_end = sound.open_end;
      bounded = sound.bounded;
    })
  ]

  finish-IsSound :
      (limit : ℕ) (v : V) (p : Poll V) → IsSound limit 1 p → IsSound limit 0 (finish polling v p)
  unfolding newest HasNoRepeat completes
  finish-IsSound limit v p sound = elim (Bool-cases (is_terminal v)) [
    | inl over ↦ rw over (record {
      seen = sound.seen;
      changing = sound.changing;
      open_end = λ e. absurd (cc e);
      bounded = omega (arith, sound.bounded);
    })
    | inr goes_on ↦ rw goes_on (record {
      seen = sound.seen;
      changing = sound.changing;
      open_end = sound.open_end;
      bounded = omega (arith, sound.bounded);
    })
  ]

  stop-IsSound :
      (limit : ℕ) (b : Bool) (p : Poll V)
      → IsSound limit 1 p
      → IsSound limit 0 (if b then record p { running = false } else p)
  stop-IsSound limit true p sound = record {
    seen = sound.seen;
    changing = sound.changing;
    open_end = λ k. absurd (cc k);
    bounded = omega (arith, sound.bounded);
  }
  stop-IsSound limit false p sound = record {
    seen = sound.seen;
    changing = sound.changing;
    open_end = sound.open_end;
    bounded = omega (arith, sound.bounded);
  }

  answer-IsSound :
      (limit : ℕ) (row : Option V) (p : Poll V)
      → IsSound limit 1 p
      → IsSound limit 0 (answer polling row p)
  unfolding answer
  answer-IsSound limit none p sound = stop-IsSound limit stops_when_gone p sound
  answer-IsSound limit (some v) p sound =
      finish-IsSound limit v (report polling v p) (report-IsSound limit 1 v p sound)

  step-IsSound :
      (limit : ℕ) (p q : Poll V) → Step polling limit p q → IsSound limit 0 p → IsSound limit 0 q
  step-IsSound limit _ _ (fired p runs room) sound = record {
    seen = sound.seen;
    changing = sound.changing;
    open_end = sound.open_end;
    bounded = omega (arith, room, sound.open_end runs);
  }
  step-IsSound limit _ _ (answered p n row count) sound =
      answer-IsSound limit row (record p { pending = n })
        (record {
          seen = sound.seen;
          changing = sound.changing;
          open_end = sound.open_end;
          bounded = omega (arith, count, sound.bounded);
        })
  step-IsSound limit _ _ (closed p) sound = record {
    seen = sound.seen;
    changing = sound.changing;
    open_end = λ e. absurd (cc e);
    bounded = sound.bounded;
  }

  Reaches-IsSound : (limit : ℕ) (p : Poll V) → Reaches polling limit p → IsSound limit 0 p
  unfolding newest HasNoRepeat completes
  Reaches-IsSound limit _ begun = record {
    seen = refl;
    changing = tt;
    open_end = λ e. refl;
    bounded = omega arith;
  }
  Reaches-IsSound limit _ (then_step p q h step) =
      step-IsSound limit p q step (Reaches-IsSound limit p h)

  newest-answer :
      (v : V) (p : Poll V)
      → newest p.sent ≡ p.last_seen
      → newest (answer polling (some v) p).sent ≡ some v
  unfolding newest answer
  newest-answer v p seen = newest-finish (report polling v p) ∙ told
    where
      newest-finish : (q : Poll V) → newest (finish polling v q).sent ≡ newest q.sent
      newest-finish q = elim (Bool-cases (is_terminal v)) [ inl e ↦ rw e refl | inr e ↦ rw e refl ]

      told : newest (report polling v p).sent ≡ some v
      told = elim (Bool-cases (has_changed polling p.last_seen v)) [
        | inl e ↦ rw e refl
        | inr e ↦ rw e (seen ∙ unchanged-eq p.last_seen v e)
      ]

  Reaches-IsPolled : (limit : ℕ) (p : Poll V) → Reaches polling limit p → IsPolled polling limit p
  Reaches-IsPolled limit p h =
      let sound = Reaches-IsSound limit p h in
      (
        sound.changing,
        sound.open_end,
        omega (arith, sound.bounded),
        λ n v. newest-answer v (record p { pending = n }) sound.seen,
      )

-- This holds of the subscriptions to the progress of an index and of a review. Whatever the rows that are read,
-- each progress message tells another view than the one before it, and once a callback has read a view the newest
-- progress message tells that view. While its interval runs a subscription has not said that the subject is
-- complete, and with at most so many callbacks under way at once it says that at most so many times, so at most
-- once if they do not overlap.
pub poll_lem :
    (limit : ℕ) (p : Poll IndexView) (q : Poll ReviewView)
    → Reaches index_polling limit p
    → Reaches review_polling limit q
    → IsPolled index_polling limit p × IsPolled review_polling limit q
poll_lem limit p q h k = (
  Reaches-IsPolled index_polling same_index_view_iff limit p h,
  Reaches-IsPolled review_polling same_review_view_iff limit q k,
)
