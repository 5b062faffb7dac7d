-- ===== src/Http/WebSocketPair/Completions/Balance.antt =====
-- Each action of the in-memory session keeps count of the callbacks.
use opal_cpp.Common.{
  ℕ, ◌+◌, ◌≡◌, refl, arith, false, List, [], ◌∷◌, Option, none, some, Bytes, Outcome, ok, err,
  Error, get_elem?, and_then-elim,
}
use opal_cpp.EventStream.Frame.{Message, encode_message}
use opal_cpp.Http.WebSocketPair.{
  End, first, second, CloseReason, normal_close, EndState, PairState, Completion, received,
  then_fire, fresh_pair, take_away, no_message, hand_over, deliver_or_queue, send_checked,
  send_async, absorb, take_front, receive_or_park, receive_async, expire, fire_receive,
  fire_waiters, fire_all, emptied, end_session, engaged,
}
use opal_cpp.Http.WebSocketPair.Calls.{
  Action, act, step, run, turned, turn_result, then_all, send_starts, send_wakes, receive_starts,
  receive_wakes, receive_front, receive_times_out, wake-elim, after_some, no_watchdog,
  sending_async, receiving_async, deadline_passes, watchdog_fails, sending_starts, sending_wakes,
  receiving_starts, receiving_wakes, receiving_times_out, closing, kicking,
}
use opal_cpp.Http.WebSocketPair.Completions.{
  one, completions, parked_receive, parked_send, outstanding, issues, issued, completions-append,
  waiting_receivers-append, waiting_senders-append, waiting_receivers-take_away,
  waiting_senders-take_away, Balanced,
}

module _ (k : ℕ) where
  deliver_or_queue-Balanced :
      (end : End) (j : ℕ) (message : Message) (s : PairState)
      → Balanced k s (one k j) (deliver_or_queue end j message s)
  unfolding deliver_or_queue hand_over
  deliver_or_queue-Balanced end j message s = ground arith

  send_checked-Balanced :
      (end : End) (j : ℕ) (message : Message) (s : PairState) (coded : Outcome Bytes)
      → Balanced k s (one k j) (send_checked end j message s coded)
  unfolding send_checked
  send_checked-Balanced end j message s (err failure) = ground arith
  send_checked-Balanced end j message s (ok frame) =
      ground (arith, deliver_or_queue-Balanced end j message s)

  absorb-Balanced :
      (end : End) (j : ℕ) (message : Message) (rest : List Message) (s : PairState)
      (parked : Option (Message × ℕ))
      → s.peer.pending_send ≡ parked
      → Balanced k s (one k j) (
          then_fire
            (absorb end (record s { peer = record (s.peer) { queue = rest } }) parked)
            (received end j (ok (some message))))
  unfolding absorb
  absorb-Balanced end j message rest s none slot = ground arith
  absorb-Balanced end j message rest s (some (next, i)) slot = ground arith

  receive_front-Balanced :
      (end : End) (j : ℕ) (s : PairState) (queue : List Message)
      → Balanced k s (one k j) (receive_front end j s queue)
  unfolding receive_front take_front
  receive_front-Balanced end j s [] = ground arith
  receive_front-Balanced end j s (message ∷ rest) =
      absorb-Balanced end j message rest s s.peer.pending_send refl

  receive_or_park-Balanced :
      (end : End) (j : ℕ) (timeout : Option ℕ) (s : PairState) (queue : List Message)
      → engaged s.mine.pending_receive ≡ false
      → Balanced k s (one k j) (receive_or_park end j timeout s queue)
  unfolding receive_or_park take_front
  receive_or_park-Balanced end j timeout s [] idle = ground arith
  receive_or_park-Balanced end j timeout s (message ∷ rest) idle =
      absorb-Balanced end j message rest s s.peer.pending_send refl

  receive_async-Balanced :
      (end : End) (j : ℕ) (timeout : Option ℕ) (s : PairState)
      → Balanced k s (one k j) (receive_async end j timeout s)
  unfolding receive_async
  receive_async-Balanced end j timeout s =
      ground (arith, receive_or_park-Balanced end j timeout s s.peer.queue)

  expire-Balanced :
      (end : End) (generation : ℕ) (failure : Error) (s : PairState) (parked : Option ℕ)
      → s.mine.pending_receive ≡ parked
      → Balanced k s 0 (expire end generation failure s parked)
  unfolding expire
  expire-Balanced end generation failure s none slot = ground arith
  expire-Balanced end generation failure s (some j) slot = ground arith

  fire_waiters-completions :
      (end : End) (e : EndState) (parked : Option (Message × ℕ))
      → completions k (fire_waiters end e parked)
        ≡ parked_receive k e.pending_receive + parked_send k parked
  unfolding fire_waiters fire_receive
  fire_waiters-completions end e none = ground arith
  fire_waiters-completions end e (some (message, j)) = ground arith

  end_session-Balanced :
      (end : End) (why : CloseReason) (s : PairState) → Balanced k s 0 (end_session end why s)
  unfolding end_session emptied fire_all
  end_session-Balanced first why s = omega (
    arith,
    completions-append k (fire_waiters first s.mine s.mine.pending_send)
        (fire_waiters second s.peer s.peer.pending_send),
    fire_waiters-completions first s.mine s.mine.pending_send,
    fire_waiters-completions second s.peer s.peer.pending_send,
  )
  end_session-Balanced second why s = omega (
    arith,
    completions-append k (fire_waiters first s.peer s.peer.pending_send)
        (fire_waiters second s.mine s.mine.pending_send),
    fire_waiters-completions first s.peer s.peer.pending_send,
    fire_waiters-completions second s.mine s.mine.pending_send,
  )

  send_starts-Balanced :
      (end : End) (j : ℕ) (message : Message) (s : PairState) (coded : Outcome Bytes)
      → Balanced k s (one k j) (send_starts end j message s coded)
  unfolding send_starts
  send_starts-Balanced end j message s (err failure) = ground arith
  send_starts-Balanced end j message s (ok frame) =
      omega (arith, waiting_senders-append k s.mine.blocked_senders (message, j))

  receive_starts-Balanced : (j : ℕ) (s : PairState) → Balanced k s (one k j) (receive_starts j s)
  unfolding receive_starts
  receive_starts-Balanced j s = omega (arith, waiting_receivers-append k s.mine.blocked_receivers j)

  send_wakes-Balanced :
      (end : End) (i : ℕ) (s : PairState) (call : Message × ℕ)
      → get_elem? s.mine.blocked_senders i ≡ some call
      → Balanced k s 0 (send_wakes end i s call)
  unfolding send_wakes
  send_wakes-Balanced end i s (message, j) found =
      let awake = record s {
        mine = record (s.mine) { blocked_senders = take_away i s.mine.blocked_senders };
      } in
      ground (
        arith,
        deliver_or_queue-Balanced end j message awake,
        waiting_senders-take_away k i s.mine.blocked_senders (message, j) found,
      )

  receive_wakes-Balanced :
      (end : End) (i : ℕ) (s : PairState) (j : ℕ)
      → get_elem? s.mine.blocked_receivers i ≡ some j
      → Balanced k s 0 (receive_wakes end i s j)
  unfolding receive_wakes
  receive_wakes-Balanced end i s j found =
      let awake = record s {
        mine = record (s.mine) { blocked_receivers = take_away i s.mine.blocked_receivers };
      } in
      omega (
        arith,
        receive_front-Balanced end j awake s.peer.queue,
        waiting_receivers-take_away k i s.mine.blocked_receivers j found,
      )

  receive_times_out-Balanced :
      (end : End) (i : ℕ) (s : PairState) (j : ℕ)
      → get_elem? s.mine.blocked_receivers i ≡ some j
      → Balanced k s 0 (receive_times_out end i s j)
  unfolding receive_times_out
  receive_times_out-Balanced end i s j found =
      omega (arith, waiting_receivers-take_away k i s.mine.blocked_receivers j found)

  act-Balanced :
      (end : End) (action : Action) (s : PairState) (next : PairState × List Completion)
      → act end action s ≡ some next
      → Balanced k s (issues k action) next
  unfolding act send_async
  act-Balanced end (sending_async j message) s next e =
      after_some (Balanced k s (one k j)) e
        (send_checked-Balanced end j message s (encode_message message))
  act-Balanced end (receiving_async j timeout) s next e =
      after_some (Balanced k s (one k j)) e (receive_async-Balanced end j timeout s)
  act-Balanced end (deadline_passes generation) s next e =
      after_some (Balanced k s 0) e
        (expire-Balanced end generation no_message s s.mine.pending_receive refl)
  act-Balanced end (watchdog_fails generation) s next e =
      after_some (Balanced k s 0) e
        (expire-Balanced end generation no_watchdog s s.mine.pending_receive refl)
  act-Balanced end (sending_starts j message) s next e =
      after_some (Balanced k s (one k j)) e
        (send_starts-Balanced end j message s (encode_message message))
  act-Balanced end (sending_wakes i) s next e =
      wake-elim (Balanced k s 0) _ _ _ e
        (λ call ready found. send_wakes-Balanced end i s call found)
  act-Balanced end (receiving_starts j) s next e =
      after_some (Balanced k s (one k j)) e (receive_starts-Balanced j s)
  act-Balanced end (receiving_wakes i) s next e =
      wake-elim (Balanced k s 0) _ _ _ e (λ j ready found. receive_wakes-Balanced end i s j found)
  act-Balanced end (receiving_times_out i) s next e =
      wake-elim (Balanced k s 0) _ _ _ e
        (λ j ready found. receive_times_out-Balanced end i s j found)
  act-Balanced end closing s next e =
      after_some (Balanced k s 0) e (end_session-Balanced end normal_close s)
  act-Balanced end (kicking why) s next e =
      wake-elim (Balanced k s 0) _ _ _ e (λ reason ready found. end_session-Balanced end reason s)

  step-Balanced :
      (s : PairState) (action : End × Action) (moved : PairState × List Completion)
      → step s action ≡ some moved
      → Balanced k s (issues k action.1) moved
  unfolding step turn_result
  step-Balanced s (first, action) moved e = act-Balanced first action s moved e
  step-Balanced s (second, action) moved e =
      and_then-elim (act second action (turned s)) turn_result e (λ seen acted turned_back.
        after_some (Balanced k s (issues k action)) turned_back
          (omega (arith, act-Balanced second action (turned s) seen acted)))

  -- The calls that are outstanding before and after a run.
  pub run-Balanced :
      (s : PairState) (actions : List (End × Action)) (next : PairState × List Completion)
      → run s actions ≡ some next
      → Balanced k s (issued k actions) next
  unfolding run then_all
  run-Balanced s [] next e = after_some (Balanced k s 0) e (omega arith)
  run-Balanced s (action ∷ actions) next e =
      and_then-elim (step s action) _ e (λ moved stepped rest.
        and_then-elim (run moved.0 actions) (then_all moved.1) rest (λ last ran joined.
          after_some (Balanced k s (issued k (action ∷ actions))) joined (
            omega (
              arith,
              completions-append k moved.1 last.1,
              step-Balanced s action moved stepped,
              run-Balanced moved.0 actions last ran,
            ))))

-- A call to the session is completed exactly once or is still outstanding, and never both: in every
-- run, whatever the order of the actions, the completions of each callback and its calls that are
-- parked or asleep are as many as the calls that were made with it.
pub completed_once :
    (k : ℕ) (actions : List (End × Action)) (next : PairState × List Completion)
    → run fresh_pair actions ≡ some next
    → completions k next.1 + outstanding k next.0 ≡ issued k actions
completed_once k actions next e = omega (arith, run-Balanced k fresh_pair actions next e)
