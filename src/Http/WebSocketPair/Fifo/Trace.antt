-- ===== src/Http/WebSocketPair/Fifo/Trace.antt =====
-- A run of the session's actions as a run of the two channels.
use opal_cpp.Common.{
  ◌≤◌, ◌≡◌, refl, ap, sym, ◌∙◌, arith, cons-ne-nil, Bool, ◌||◌, List, [], ◌∷◌, ◌++◌, append_assoc,
  some, length, and_then-elim,
}
use opal_cpp.EventStream.Frame.{Message, encode_message}
use opal_cpp.Http.WebSocketPair.{
  End, first, second, normal_close, queue_depth, PairState, Completion, fresh_pair, no_message,
  send_async,
}
use opal_cpp.Http.WebSocketPair.Calls.{
  Action, act, step, run, turned, turn_result, wake-elim, after_some, no_watchdog, sending_async,
  receiving_async, deadline_passes, watchdog_fails, sending_starts, sending_wakes, receiving_starts,
  receiving_wakes, receiving_times_out, closing, kicking,
}
use opal_cpp.Http.WebSocketPair.Invariant.{
  PairInvariant, PairInvariant-turned, run-elim, fresh_pair-PairInvariant, PairInvariant-run,
}
use opal_cpp.Http.WebSocketPair.Fifo.{
  delivered, accepted, told_end, Channel, Serves, ServesBoth, queues-append-nil,
  ServesBoth-send_checked, ServesBoth-receive_async, ServesBoth-expire, ServesBoth-send_starts,
  ServesBoth-send_wakes, ServesBoth-receive_starts, ServesBoth-receive_wakes,
  ServesBoth-receive_times_out, ServesBoth-end_session,
}

ServesBoth-act :
    (end : End) (action : Action) (s : PairState) (next : PairState × List Completion)
    → PairInvariant s
    → act end action s ≡ some next
    → ServesBoth end s next
unfolding act send_async
ServesBoth-act end (sending_async k message) s next h e =
    after_some (ServesBoth end s) e
      (ServesBoth-send_checked end k message s (encode_message message) h)
ServesBoth-act end (receiving_async k timeout) s next h e =
    after_some (ServesBoth end s) e (ServesBoth-receive_async end k timeout s h)
ServesBoth-act end (deadline_passes generation) s next h e =
    after_some (ServesBoth end s) e
      (ServesBoth-expire end generation no_message s s.mine.pending_receive)
ServesBoth-act end (watchdog_fails generation) s next h e =
    after_some (ServesBoth end s) e
      (ServesBoth-expire end generation no_watchdog s s.mine.pending_receive)
ServesBoth-act end (sending_starts k message) s next h e =
    after_some (ServesBoth end s) e
      (ServesBoth-send_starts end k message s (encode_message message))
ServesBoth-act end (sending_wakes i) s next h e =
    wake-elim (ServesBoth end s) _ _ _ e (λ call ready found. ServesBoth-send_wakes end i s call h)
ServesBoth-act end (receiving_starts k) s next h e =
    after_some (ServesBoth end s) e (ServesBoth-receive_starts end k s)
ServesBoth-act end (receiving_wakes i) s next h e =
    wake-elim (ServesBoth end s) _ _ _ e
      (λ k ready found. ServesBoth-receive_wakes end i s k h ready)
ServesBoth-act end (receiving_times_out i) s next h e =
    wake-elim (ServesBoth end s) _ _ _ e (λ k ready found. ServesBoth-receive_times_out end i s k)
ServesBoth-act end closing s next h e =
    after_some (ServesBoth end s) e (ServesBoth-end_session end normal_close s h)
ServesBoth-act end (kicking why) s next h e =
    wake-elim (ServesBoth end s) _ _ _ e
      (λ reason ready found. ServesBoth-end_session end reason s h)

ServesBoth-step :
    (s : PairState) (action : End × Action) (moved : PairState × List Completion)
    → PairInvariant s
    → step s action ≡ some moved
    → ServesBoth first s moved
unfolding step turn_result
ServesBoth-step s (first, action) moved h e = ServesBoth-act first action s moved h e
ServesBoth-step s (second, action) moved h e =
    and_then-elim (act second action (turned s)) turn_result e (λ seen acted turned_back.
      let there : ServesBoth second (turned s) seen =
        ServesBoth-act second action (turned s) seen (PairInvariant-turned s h) acted in
      after_some (ServesBoth first s) turned_back (record { out = there.back; back = there.out }))

delivered-append :
    (end : End) (fired more : List Completion)
    → delivered end (fired ++ more) ≡ delivered end fired ++ delivered end more
delivered-append end [] more = refl
delivered-append end (c ∷ fired) more = rw (delivered-append end fired more, append_assoc) refl

accepted-append :
    (end : End) (fired more : List Completion)
    → accepted end (fired ++ more) ≡ accepted end fired ++ accepted end more
accepted-append end [] more = refl
accepted-append end (c ∷ fired) more = rw (accepted-append end fired more, append_assoc) refl

told_end-append :
    (end : End) (fired more : List Completion)
    → told_end end (fired ++ more) ≡ told_end end fired || told_end end more
told_end-append end [] more = refl
told_end-append end (c ∷ fired) more = ground (arith, told_end-append end fired more)

append-nil_right {ℓ} : {A : Type ℓ} (xs ys : List A) → xs ++ ys ≡ [] → ys ≡ []
append-nil_right [] ys e = e
append-nil_right (x ∷ xs) ys e = absurd (cons-ne-nil _ _ e)

-- Two stretches of service in a row.
Serves-join :
    (before middle after : Channel) (taken taken_then given given_then : List Message)
    (over over_then : Bool)
    → Serves before middle taken given over
    → Serves middle after taken_then given_then over_then
    → Serves before after (taken ++ taken_then) (given ++ given_then) (over || over_then)
Serves-join before middle after taken taken_then given given_then over over_then h g = record {
  in_order =
      append_assoc given given_then after.waiting
      ∙ ap (λ l. given ++ l) g.in_order
      ∙ sym (append_assoc given middle.waiting taken_then)
      ∙ ap (λ l. l ++ taken_then) h.in_order
      ∙ append_assoc before.waiting taken taken_then;
  stays_closed = λ e. ground arith;
  over_when_drained = λ e. ground (arith, append-nil_right given_then after.waiting);
}

ServesBoth-join :
    (s : PairState) (moved last : PairState × List Completion)
    → ServesBoth first s moved
    → ServesBoth first moved.0 last
    → ServesBoth first s (last.0, moved.1 ++ last.1)
ServesBoth-join s moved last h g = record {
  out =
      rw
        (
          delivered-append second moved.1 last.1,
          accepted-append first moved.1 last.1,
          told_end-append second moved.1 last.1,
        )
        (Serves-join _ _ _ _ _ _ _ _ _ h.out g.out);
  back =
      rw
        (
          delivered-append first moved.1 last.1,
          accepted-append second moved.1 last.1,
          told_end-append first moved.1 last.1,
        )
        (Serves-join _ _ _ _ _ _ _ _ _ h.back g.back);
}

ServesBoth-rest : (s : PairState) → ServesBoth first s (s, [])
ServesBoth-rest s = ground (arith, queues-append-nil s)

-- Whatever the calls of both ends are and in whatever order they get the mutex, the session is two
-- channels, one in each direction. What an end has received, with what is still queued for it, is
-- exactly the messages whose sends were reported to have succeeded, in that order, so that nothing
-- is lost, doubled or overtaken; at most eight messages are queued in each direction; and an end is
-- told of the end of the stream only in a closed session from which it has received all of them.
pub run-ServesBoth :
    (actions : List (End × Action)) (next : PairState × List Completion)
    → run fresh_pair actions ≡ some next
    → ServesBoth first fresh_pair next
      × ((length next.0.mine.queue ≤ queue_depth) × (length next.0.peer.queue ≤ queue_depth))
run-ServesBoth actions next e =
    let kept = PairInvariant-run actions next e in
    (
      run-elim (ServesBoth first) ServesBoth-rest ServesBoth-join ServesBoth-step fresh_pair actions
          next fresh_pair-PairInvariant e,
      (kept.at_mine.bounded, kept.at_peer.bounded),
    )
