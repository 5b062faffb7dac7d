-- ===== src/Http/WebSocketPair/Invariant.antt =====
-- What holds of the in-memory session between any two actions.
use opal_cpp.Common.{
  ℕ, ◌≤◌, ◌≡◌, refl, ◌⊎◌, inl, inr, arith, Bool, true, false, List, [], ◌∷◌, ◌++◌, Option, none,
  some, Bytes, length, length-append, Outcome, ok, err, Error, List-cases, if_elim, and_then-elim,
}
use mathlib.Core.Path.{subst}
use mathlib.Core.Option.{some-injective}
use opal_cpp.EventStream.Frame.{Message, encode_message}
use opal_cpp.Http.WebSocketPair.{
  normal_close, no_message, End, first, second, CloseReason, queue_depth, EndState, PairState,
  Completion, fresh_pair, take_away, hand_over, deliver_or_queue, send_checked, send_async, absorb,
  take_front, receive_or_park, receive_async, expire, emptied, end_session, engaged,
}
use opal_cpp.Http.WebSocketPair.Calls.{
  Action, act, step, run, turned, turn_result, then_all, send_starts, send_wakes, receive_starts,
  receive_wakes, receive_front, wake-elim, after_some, no_watchdog, sending_async, receiving_async,
  deadline_passes, watchdog_fails, sending_starts, sending_wakes, receiving_starts, receiving_wakes,
  receiving_times_out, closing, kicking, receive_times_out, can_send,
}

-- One end, with what the other has sent it.
pub record EndInvariant (e : EndState) (inbound : List Message) (closed : Bool) : Type 0 where
  pub bounded : length e.queue ≤ queue_depth
  pub parked_receive_waits : engaged e.pending_receive ≡ true → (inbound ≡ []) × (closed ≡ false)
  pub parked_send_waits :
      engaged e.pending_send ≡ true → (length e.queue ≡ queue_depth) × (closed ≡ false)

pub record PairInvariant (s : PairState) : Type 0 where
  pub at_mine : EndInvariant s.mine s.peer.queue s.closed
  pub at_peer : EndInvariant s.peer s.mine.queue s.closed
  pub ended_by_one :
      (engaged s.mine.peer_close ≡ true → (engaged s.peer.peer_close ≡ false) × (s.closed ≡ true))
      × (engaged s.peer.peer_close ≡ true → (engaged s.mine.peer_close ≡ false) × (s.closed ≡ true))
  pub ended_has_reason :
      s.closed ≡ true → (engaged s.mine.peer_close ≡ true) ⊎ (engaged s.peer.peer_close ≡ true)

pub fresh_pair-PairInvariant : PairInvariant fresh_pair
fresh_pair-PairInvariant = ground arith

pub PairInvariant-turned : (s : PairState) → PairInvariant s → PairInvariant (turned s)
PairInvariant-turned s h = ground arith

PairInvariant-deliver_or_queue :
    (end : End) (k : ℕ) (message : Message) (s : PairState)
    → PairInvariant s
    → s.closed ≡ false
    → engaged s.mine.pending_send ≡ false
    → length s.mine.queue ≤ 7
    → PairInvariant (deliver_or_queue end k message s).0
unfolding deliver_or_queue hand_over
PairInvariant-deliver_or_queue end k message s h open_ idle room =
    ground (arith, length-append s.mine.queue (message ∷ []))

PairInvariant-send_checked :
    (end : End) (k : ℕ) (message : Message) (s : PairState) (coded : Outcome Bytes)
    → PairInvariant s
    → PairInvariant (send_checked end k message s coded).0
unfolding send_checked
PairInvariant-send_checked end k message s (err failure) h = h
PairInvariant-send_checked end k message s (ok frame) h =
    ground (arith, PairInvariant-deliver_or_queue end k message s h)

PairInvariant-absorb :
    (end : End) (message : Message) (rest : List Message) (s : PairState)
    (parked : Option (Message × ℕ))
    → PairInvariant s
    → s.peer.queue ≡ message ∷ rest
    → s.peer.pending_send ≡ parked
    → PairInvariant (absorb end (record s { peer = record (s.peer) { queue = rest } }) parked).0
unfolding absorb
PairInvariant-absorb end message rest s none h e slot = ground arith
PairInvariant-absorb end message rest s (some (next, k)) h e slot =
    ground (arith, length-append rest (next ∷ []))

PairInvariant-take_front :
    (end : End) (k : ℕ) (message : Message) (rest : List Message) (s : PairState)
    → PairInvariant s
    → s.peer.queue ≡ message ∷ rest
    → PairInvariant (take_front end k message rest s).0
unfolding take_front
PairInvariant-take_front end k message rest s h e =
    PairInvariant-absorb end message rest s s.peer.pending_send h e refl

PairInvariant-receive_async :
    (end : End) (k : ℕ) (timeout : Option ℕ) (s : PairState)
    → PairInvariant s
    → PairInvariant (receive_async end k timeout s).0
unfolding receive_async receive_or_park
PairInvariant-receive_async end k timeout s h = elim (List-cases s.peer.queue) [
  | inl e ↦ ground arith
  | inr (message, rest, e) ↦ ground (arith, PairInvariant-take_front end k message rest s h e)
]

PairInvariant-expire :
    (end : End) (generation : ℕ) (failure : Error) (s : PairState) (parked : Option ℕ)
    → PairInvariant s
    → PairInvariant (expire end generation failure s parked).0
unfolding expire
PairInvariant-expire end generation failure s none h = h
PairInvariant-expire end generation failure s (some k) h = ground arith

PairInvariant-end_session :
    (end : End) (why : CloseReason) (s : PairState)
    → PairInvariant s
    → PairInvariant (end_session end why s).0
unfolding end_session emptied
PairInvariant-end_session end why s h = ground arith

PairInvariant-send_starts :
    (end : End) (k : ℕ) (message : Message) (s : PairState) (coded : Outcome Bytes)
    → PairInvariant s
    → PairInvariant (send_starts end k message s coded).0
unfolding send_starts
PairInvariant-send_starts end k message s coded h = ground arith

PairInvariant-receive_starts :
    (k : ℕ) (s : PairState) → PairInvariant s → PairInvariant (receive_starts k s).0
unfolding receive_starts
PairInvariant-receive_starts k s h = ground arith

PairInvariant-send_wakes :
    (end : End) (i : ℕ) (s : PairState) (call : Message × ℕ)
    → PairInvariant s
    → can_send s ≡ true
    → PairInvariant (send_wakes end i s call).0
unfolding send_wakes can_send
PairInvariant-send_wakes end i s (message, k) h ready =
    let awake = record s {
      mine = record (s.mine) { blocked_senders = take_away i s.mine.blocked_senders };
    } in
    if_elim (λ (r : PairState × List Completion). PairInvariant r.0) s.closed _ _
      (λ e. ground arith)
      (λ e.
        PairInvariant-deliver_or_queue end k message awake (ground arith) e (ground arith)
          (ground arith))

PairInvariant-receive_wakes :
    (end : End) (i : ℕ) (s : PairState) (k : ℕ)
    → PairInvariant s
    → PairInvariant (receive_wakes end i s k).0
unfolding receive_wakes receive_front
PairInvariant-receive_wakes end i s k h =
    let awake = record s {
      mine = record (s.mine) { blocked_receivers = take_away i s.mine.blocked_receivers };
    } in
    elim (List-cases s.peer.queue) [
      | inl e ↦ ground arith
      | inr (message, rest, e) ↦
          let next : PairInvariant (take_front end k message rest awake).0 =
            PairInvariant-take_front end k message rest awake (ground arith) e in
          ground (arith, next)
    ]

PairInvariant-receive_times_out :
    (end : End) (i : ℕ) (s : PairState) (k : ℕ)
    → PairInvariant s
    → PairInvariant (receive_times_out end i s k).0
unfolding receive_times_out
PairInvariant-receive_times_out end i s k h = ground arith

abbrev PairInvariantOf : PairState × List Completion → Type 0
PairInvariantOf next = PairInvariant next.0

-- An action of the end that is seen as `mine`.
PairInvariant-act :
    (end : End) (action : Action) (s : PairState) (next : PairState × List Completion)
    → PairInvariant s
    → act end action s ≡ some next
    → PairInvariant next.0
unfolding act send_async
PairInvariant-act end (sending_async k message) s next h e =
    after_some PairInvariantOf e
      (PairInvariant-send_checked end k message s (encode_message message) h)
PairInvariant-act end (receiving_async k timeout) s next h e =
    after_some PairInvariantOf e (PairInvariant-receive_async end k timeout s h)
PairInvariant-act end (deadline_passes generation) s next h e =
    after_some PairInvariantOf e
      (PairInvariant-expire end generation no_message s s.mine.pending_receive h)
PairInvariant-act end (watchdog_fails generation) s next h e =
    after_some PairInvariantOf e
      (PairInvariant-expire end generation no_watchdog s s.mine.pending_receive h)
PairInvariant-act end (sending_starts k message) s next h e =
    after_some PairInvariantOf e
      (PairInvariant-send_starts end k message s (encode_message message) h)
PairInvariant-act end (sending_wakes i) s next h e =
    wake-elim PairInvariantOf _ _ _ e
      (λ call ready found. PairInvariant-send_wakes end i s call h ready)
PairInvariant-act end (receiving_starts k) s next h e =
    after_some PairInvariantOf e (PairInvariant-receive_starts k s h)
PairInvariant-act end (receiving_wakes i) s next h e =
    wake-elim PairInvariantOf _ _ _ e
      (λ call ready found. PairInvariant-receive_wakes end i s call h)
PairInvariant-act end (receiving_times_out i) s next h e =
    wake-elim PairInvariantOf _ _ _ e
      (λ call ready found. PairInvariant-receive_times_out end i s call h)
PairInvariant-act end closing s next h e =
    after_some PairInvariantOf e (PairInvariant-end_session end normal_close s h)
PairInvariant-act end (kicking why) s next h e =
    wake-elim PairInvariantOf _ _ _ e
      (λ reason ready found. PairInvariant-end_session end reason s h)

pub PairInvariant-step :
    (s : PairState) (action : End × Action) (next : PairState × List Completion)
    → PairInvariant s
    → step s action ≡ some next
    → PairInvariant next.0
unfolding step turn_result
PairInvariant-step s (first, action) next h e = PairInvariant-act first action s next h e
PairInvariant-step s (second, action) next h e =
    and_then-elim (act second action (turned s)) turn_result e (λ seen acted turned_back.
      after_some PairInvariantOf turned_back (
        PairInvariant-turned seen.0
          (PairInvariant-act second action (turned s) seen (PairInvariant-turned s h) acted)))

-- What holds of no action, of one and of two runs in a row holds of a run.
module _ {ℓ} (P : PairState → PairState × List Completion → Type ℓ)
    (rests : (s : PairState) → P s (s, []))
    (joins : (s : PairState) (moved last : PairState × List Completion)
      → P s moved
      → P moved.0 last
      → P s (last.0, moved.1 ++ last.1))
    (moves : (s : PairState) (action : End × Action) (moved : PairState × List Completion)
      → PairInvariant s
      → step s action ≡ some moved
      → P s moved) where
  pub run-elim :
      (s : PairState) (actions : List (End × Action)) (next : PairState × List Completion)
      → PairInvariant s
      → run s actions ≡ some next
      → P s next
  unfolding run then_all
  run-elim s [] next h e = subst (P s) (some-injective _ _ e) (rests s)
  run-elim s (action ∷ actions) next h e = and_then-elim (step s action) _ e (λ moved stepped rest.
      and_then-elim (run moved.0 actions) (then_all moved.1) rest (λ last ran joined.
        subst (P s) (some-injective _ _ joined) (
          joins s moved last (moves s action moved h stepped)
            (run-elim moved.0 actions last (PairInvariant-step s action moved h stepped) ran))))

-- No sequence of actions, in whatever order the calls of both ends get the mutex, breaks the
-- invariant of the session.
pub PairInvariant-run :
    (actions : List (End × Action)) (next : PairState × List Completion)
    → run fresh_pair actions ≡ some next
    → PairInvariant next.0
PairInvariant-run actions next e =
    run-elim (λ s next. PairInvariant s → PairInvariant next.0) (λ s h. h)
      (λ s moved last to_moved to_last h. to_last (to_moved h))
      (λ s action moved h stepped g. PairInvariant-step s action moved h stepped) fresh_pair actions
      next fresh_pair-PairInvariant e fresh_pair-PairInvariant
