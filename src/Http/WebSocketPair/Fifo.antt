-- ===== src/Http/WebSocketPair/Fifo.antt =====
-- The in-memory session as two bounded channels: what is sent, and what is received of it.
pub mod Trace
use mathlib.Core.Path.{subst}
use mathlib.Core.Option.{some-injective}
use opal_cpp.Common.{
  ℕ, ◌≤◌, ◌≡◌, refl, ap, sym, ◌∙◌, inl, inr, arith, Bool, true, false, ◌||◌, List, [], ◌∷◌, ◌++◌,
  append-nil, append_assoc, Option, none, some, Bytes, length, Outcome, ok, err, Error, List-cases,
  if_elim, and_then, and_then-elim,
}
use opal_cpp.EventStream.Frame.{Message, encode_message}
use opal_cpp.Http.WebSocketPair.{
  End, first, second, other, CloseReason, normal_close, queue_depth, EndState, PairState,
  Completion, received, sent, then_fire, fresh_pair, take_away, no_message, hand_over,
  deliver_or_queue, send_checked, send_async, absorb, take_front, receive_or_park, receive_async,
  expire, fire_receive, fire_waiters, fire_all, emptied, end_session, engaged,
}
use opal_cpp.Http.WebSocketPair.Calls.{
  Action, act, step, run, turned, turn_result, send_starts, send_wakes, receive_starts, arrived,
  receive_wakes, receive_front, receive_times_out, can_send, wake-elim, no_watchdog, sending_async,
  receiving_async, deadline_passes, watchdog_fails, sending_starts, sending_wakes, receiving_starts,
  receiving_wakes, receiving_times_out, closing, kicking,
}
use opal_cpp.Http.WebSocketPair.Invariant.{
  PairInvariant, PairInvariant-turned, PairInvariant-step, run-elim, fresh_pair-PairInvariant,
  PairInvariant-run,
}

abbrev same_end : End → End → Bool
same_end first first = true
same_end second second = true
same_end end at = false

-- The messages that an end has received, and those whose send it was told has succeeded.
abbrev pub when {ℓ} : {A : Type ℓ} → Bool → A → List A
when true a = a ∷ []
when false a = []

abbrev pub delivered_by : End → Completion → List Message
delivered_by end (received at k (ok (some message))) = when (same_end end at) message
delivered_by end (received at k (ok none)) = []
delivered_by end (received at k (err failure)) = []
delivered_by end (sent at k message outcome) = []

abbrev pub accepted_by : End → Completion → List Message
accepted_by end (received at k outcome) = []
accepted_by end (sent at k message (ok u)) = when (same_end end at) message
accepted_by end (sent at k message (err failure)) = []

abbrev pub delivered : End → List Completion → List Message
delivered end [] = []
delivered end (c ∷ fired) = delivered_by end c ++ delivered end fired

abbrev pub accepted : End → List Completion → List Message
accepted end [] = []
accepted end (c ∷ fired) = accepted_by end c ++ accepted end fired

-- Whether an end has been told that the stream is over.
abbrev pub is_end_of_stream : End → Completion → Bool
is_end_of_stream end (received at k (ok none)) = same_end end at
is_end_of_stream end (received at k (ok (some message))) = false
is_end_of_stream end (received at k (err failure)) = false
is_end_of_stream end (sent at k message outcome) = false

abbrev pub told_end : End → List Completion → Bool
told_end end [] = false
told_end end (c ∷ fired) = is_end_of_stream end c || told_end end fired

-- A channel in one direction, as a client sees it.
pub record Channel : Type 0 where
  pub waiting : List Message
  pub closed : Bool

-- What becomes of a channel that has accepted some messages and delivered some.
pub record Serves (before after : Channel) (taken given : List Message) (over : Bool) : Type 0 where
  pub in_order : given ++ after.waiting ≡ before.waiting ++ taken
  pub stays_closed : before.closed ≡ true → (after.closed ≡ true) × (taken ≡ [])
  pub over_when_drained : over ≡ true → (after.closed ≡ true) × (after.waiting ≡ [])

abbrev pub outbound : PairState → Channel
outbound s = record { waiting = s.mine.queue; closed = s.closed }

abbrev pub inbound : PairState → Channel
inbound s = record { waiting = s.peer.queue; closed = s.closed }

pub record ServesBoth (end : End) (s : PairState) (next : PairState × List Completion)
    : Type 0 where
  pub out :
      Serves
        (outbound s)
        (outbound next.0)
        (accepted end next.1)
        (delivered (other end) next.1)
        (told_end (other end) next.1)
  pub back :
      Serves
        (inbound s)
        (inbound next.0)
        (accepted (other end) next.1)
        (delivered end next.1)
        (told_end end next.1)

pub queues-append-nil :
    (s : PairState) → (s.mine.queue ++ [] ≡ s.mine.queue) × (s.peer.queue ++ [] ≡ s.peer.queue)
queues-append-nil s = (append-nil s.mine.queue, append-nil s.peer.queue)

ServesBoth-deliver_or_queue :
    (end : End) (k : ℕ) (message : Message) (s : PairState)
    → PairInvariant s
    → s.closed ≡ false
    → ServesBoth end s (deliver_or_queue end k message s)
unfolding deliver_or_queue hand_over
ServesBoth-deliver_or_queue first k message s h open_ = ground (arith, queues-append-nil s)
ServesBoth-deliver_or_queue second k message s h open_ = ground (arith, queues-append-nil s)

pub ServesBoth-send_checked :
    (end : End) (k : ℕ) (message : Message) (s : PairState) (coded : Outcome Bytes)
    → PairInvariant s
    → ServesBoth end s (send_checked end k message s coded)
unfolding send_checked
ServesBoth-send_checked end k message s (err failure) h = ground (arith, queues-append-nil s)
ServesBoth-send_checked end k message s (ok frame) h =
    ground (arith, ServesBoth-deliver_or_queue end k message s h, queues-append-nil s)

ServesBoth-absorb :
    (end : End) (k : ℕ) (message : Message) (rest : List Message) (s : PairState)
    (parked : Option (Message × ℕ))
    → PairInvariant s
    → s.peer.queue ≡ message ∷ rest
    → s.peer.pending_send ≡ parked
    → ServesBoth end s (
        then_fire
          (absorb end (record s { peer = record (s.peer) { queue = rest } }) parked)
          (received end k (ok (some message))))
unfolding absorb
ServesBoth-absorb first k message rest s none h e slot = ground (arith, queues-append-nil s)
ServesBoth-absorb second k message rest s none h e slot = ground (arith, queues-append-nil s)
ServesBoth-absorb first k message rest s (some (next, j)) h e slot =
    ground (arith, queues-append-nil s)
ServesBoth-absorb second k message rest s (some (next, j)) h e slot =
    ground (arith, queues-append-nil s)

ServesBoth-take_front :
    (end : End) (k : ℕ) (message : Message) (rest : List Message) (s : PairState)
    → PairInvariant s
    → s.peer.queue ≡ message ∷ rest
    → ServesBoth end s (take_front end k message rest s)
unfolding take_front
ServesBoth-take_front end k message rest s h e =
    ServesBoth-absorb end k message rest s s.peer.pending_send h e refl

pub ServesBoth-receive_async :
    (end : End) (k : ℕ) (timeout : Option ℕ) (s : PairState)
    → PairInvariant s
    → ServesBoth end s (receive_async end k timeout s)
unfolding receive_async receive_or_park
ServesBoth-receive_async end k timeout s h = elim (List-cases s.peer.queue) [
  | inl e ↦ ground (arith, queues-append-nil s)
  | inr (message, rest, e) ↦
      ground (arith, ServesBoth-take_front end k message rest s h e, queues-append-nil s)
]

pub ServesBoth-expire :
    (end : End) (generation : ℕ) (failure : Error) (s : PairState) (parked : Option ℕ)
    → ServesBoth end s (expire end generation failure s parked)
unfolding expire
ServesBoth-expire end generation failure s none = ground (arith, queues-append-nil s)
ServesBoth-expire end generation failure s (some k) = ground (arith, queues-append-nil s)

pub ServesBoth-end_session :
    (end : End) (why : CloseReason) (s : PairState)
    → PairInvariant s
    → ServesBoth end s (end_session end why s)
unfolding end_session emptied fire_all fire_waiters fire_receive
ServesBoth-end_session end why s h = ground (arith, queues-append-nil s)

pub ServesBoth-send_starts :
    (end : End) (k : ℕ) (message : Message) (s : PairState) (coded : Outcome Bytes)
    → ServesBoth end s (send_starts end k message s coded)
unfolding send_starts
ServesBoth-send_starts end k message s coded = ground (arith, queues-append-nil s)

pub ServesBoth-send_wakes :
    (end : End) (i : ℕ) (s : PairState) (call : Message × ℕ)
    → PairInvariant s
    → ServesBoth end s (send_wakes end i s call)
unfolding send_wakes
ServesBoth-send_wakes end i s (message, k) h =
    let awake = record s {
      mine = record (s.mine) { blocked_senders = take_away i s.mine.blocked_senders };
    } in
    if_elim (ServesBoth end s) s.closed _ _ (λ e. ground (arith, queues-append-nil s))
      (λ e.
        let moved : ServesBoth end awake (deliver_or_queue end k message awake) =
          ServesBoth-deliver_or_queue end k message awake (ground arith) e in
        record { out = moved.out; back = moved.back })

pub ServesBoth-receive_starts :
    (end : End) (k : ℕ) (s : PairState) → ServesBoth end s (receive_starts k s)
unfolding receive_starts
ServesBoth-receive_starts end k s = ground (arith, queues-append-nil s)

ServesBoth-receive_front :
    (end : End) (k : ℕ) (s : PairState) (queue : List Message)
    → PairInvariant s
    → s.peer.queue ≡ queue
    → (queue ≡ [] → s.closed ≡ true)
    → ServesBoth end s (receive_front end k s queue)
unfolding receive_front
ServesBoth-receive_front end k s [] h e ended = ground (arith, queues-append-nil s)
ServesBoth-receive_front end k s (message ∷ rest) h e ended =
    ServesBoth-take_front end k message rest s h e

pub ServesBoth-receive_wakes :
    (end : End) (i : ℕ) (s : PairState) (k : ℕ)
    → PairInvariant s
    → arrived s ≡ true
    → ServesBoth end s (receive_wakes end i s k)
unfolding receive_wakes arrived
ServesBoth-receive_wakes end i s k h ready =
    let awake = record s {
      mine = record (s.mine) { blocked_receivers = take_away i s.mine.blocked_receivers };
    } in
    let moved : ServesBoth end awake (receive_front end k awake s.peer.queue) =
      ServesBoth-receive_front end k awake s.peer.queue (ground arith) refl (λ e. ground arith) in
    record { out = moved.out; back = moved.back }

pub ServesBoth-receive_times_out :
    (end : End) (i : ℕ) (s : PairState) (k : ℕ) → ServesBoth end s (receive_times_out end i s k)
unfolding receive_times_out
ServesBoth-receive_times_out end i s k = ground (arith, queues-append-nil s)
