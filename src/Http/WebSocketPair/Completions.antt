-- ===== src/Http/WebSocketPair/Completions.antt =====
-- How often each callback of the in-memory session is fired.
pub mod Balance
pub mod Progress
use mathlib.Core.Path.{subst}
use mathlib.Core.Option.{some-injective, none-ne-some}
use opal_cpp.Common.{
  ℕ, zero, suc, ◌+◌, ◌≤◌, ◌≡◌, refl, ap, sym, ◌∙◌, inl, inr, arith, Bool, true, false, ◌||◌, List,
  [], ◌∷◌, ◌++◌, Option, none, some, Bytes, length, Outcome, ok, err, Error, List-cases, if_elim,
  get_elem?, and_then, and_then-elim, ◌==◌, if◌then◌else◌,
}
use opal_cpp.EventStream.Frame.{Message, encode_message}
use opal_cpp.Http.WebSocketPair.{
  End, first, second, other, CloseReason, normal_close, queue_depth, EndState, PairState,
  Completion, received, sent, then_fire, fresh_pair, take_away, no_message, hand_over,
  deliver_or_queue, send_checked, send_async, absorb, take_front, receive_or_park, receive_async,
  expire, fire_receive, fire_waiters, fire_all, emptied, end_session, engaged,
}
use opal_cpp.Http.WebSocketPair.Calls.{
  Action, act, step, run, turned, turn_result, send_starts, send_wakes, receive_starts, arrived,
  receive_wakes, receive_front, receive_times_out, can_send, wake-elim, no_watchdog, sending_async,
  receiving_async, deadline_passes, watchdog_fails, sending_starts, sending_wakes, receiving_starts,
  receiving_wakes, receiving_times_out, closing, kicking,
}
use opal_cpp.Http.WebSocketPair.Invariant.{
  PairInvariant, PairInvariant-turned, PairInvariant-step, run-elim, fresh_pair-PairInvariant,
  PairInvariant-run,
}

-- One callback `k` among others.
module _ (k : ℕ) where
  abbrev pub one : ℕ → ℕ
  one j = if j == k then 1 else 0

  abbrev pub completions : List Completion → ℕ
  completions [] = 0
  completions (received end j outcome ∷ fired) = one j + completions fired
  completions (sent end j message outcome ∷ fired) = one j + completions fired

  abbrev pub waiting_receivers : List ℕ → ℕ
  waiting_receivers [] = 0
  waiting_receivers (j ∷ calls) = one j + waiting_receivers calls

  abbrev pub waiting_senders : List (Message × ℕ) → ℕ
  waiting_senders [] = 0
  waiting_senders ((message, j) ∷ calls) = one j + waiting_senders calls

  abbrev pub parked_receive : Option ℕ → ℕ
  parked_receive none = 0
  parked_receive (some j) = one j

  abbrev pub parked_send : Option (Message × ℕ) → ℕ
  parked_send none = 0
  parked_send (some (message, j)) = one j

  abbrev pub outstanding_at : EndState → ℕ
  outstanding_at e =
      parked_receive e.pending_receive
      + (parked_send e.pending_send
          + (waiting_receivers e.blocked_receivers + waiting_senders e.blocked_senders))

  abbrev pub outstanding : PairState → ℕ
  outstanding s = outstanding_at s.mine + outstanding_at s.peer

  abbrev pub issues : Action → ℕ
  issues (sending_async j message) = one j
  issues (receiving_async j timeout) = one j
  issues (sending_starts j message) = one j
  issues (receiving_starts j) = one j
  issues (deadline_passes generation) = 0
  issues (watchdog_fails generation) = 0
  issues (sending_wakes i) = 0
  issues (receiving_wakes i) = 0
  issues (receiving_times_out i) = 0
  issues closing = 0
  issues (kicking why) = 0

  abbrev pub issued : List (End × Action) → ℕ
  issued [] = 0
  issued (action ∷ actions) = issues action.1 + issued actions

  pub completions-append :
      (fired more : List Completion)
      → completions (fired ++ more) ≡ completions fired + completions more
  completions-append [] more = omega arith
  completions-append (received end j outcome ∷ fired) more =
      omega (arith, completions-append fired more)
  completions-append (sent end j message outcome ∷ fired) more =
      omega (arith, completions-append fired more)

  pub waiting_receivers-append :
      (calls : List ℕ) (j : ℕ)
      → waiting_receivers (calls ++ (j ∷ [])) ≡ waiting_receivers calls + one j
  waiting_receivers-append [] j = omega arith
  waiting_receivers-append (c ∷ calls) j = omega (arith, waiting_receivers-append calls j)

  pub waiting_senders-append :
      (calls : List (Message × ℕ)) (call : Message × ℕ)
      → waiting_senders (calls ++ (call ∷ [])) ≡ waiting_senders calls + one call.1
  waiting_senders-append [] call = omega arith
  waiting_senders-append ((m, j) ∷ calls) call = omega (arith, waiting_senders-append calls call)

  pub waiting_receivers-take_away :
      (i : ℕ) (calls : List ℕ) (j : ℕ)
      → get_elem? calls i ≡ some j
      → waiting_receivers (take_away i calls) + one j ≡ waiting_receivers calls
  waiting_receivers-take_away i [] j e = absurd (none-ne-some _ e)
  waiting_receivers-take_away zero (c ∷ calls) j e =
      let same : c ≡ j = some-injective _ _ e in rw same (omega arith)
  waiting_receivers-take_away (suc i) (c ∷ calls) j e =
      omega (arith, waiting_receivers-take_away i calls j e)

  pub waiting_senders-take_away :
      (i : ℕ) (calls : List (Message × ℕ)) (call : Message × ℕ)
      → get_elem? calls i ≡ some call
      → waiting_senders (take_away i calls) + one call.1 ≡ waiting_senders calls
  waiting_senders-take_away i [] call e = absurd (none-ne-some _ e)
  waiting_senders-take_away zero (c ∷ calls) call e =
      let same : c ≡ call = some-injective _ _ e in rw same (omega arith)
  waiting_senders-take_away (suc i) ((m, j) ∷ calls) call e =
      omega (arith, waiting_senders-take_away i calls call e)

  -- The calls before an action, with those that it makes, are the calls after it, with those that it
  -- completes.
  abbrev pub Balanced : PairState → ℕ → PairState × List Completion → Type 0
  Balanced s issued next = outstanding next.0 + completions next.1 ≡ outstanding s + issued
