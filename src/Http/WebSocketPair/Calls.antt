-- ===== src/Http/WebSocketPair/Calls.antt =====
-- The blocking calls of runtime/src/http/websocket_pair.cc, which give up the mutex while they sleep,
-- and the actions of a session. A call is an action that starts it and one that ends it.
use mathlib.Core.Path.{subst}
use mathlib.Core.Option.{none-ne-some, some-injective}
use opal_cpp.Common.{
  ◌≡◌, refl, ℕ, Bool, true, false, not, ◌&&◌, ◌||◌, List, [], ◌∷◌, ◌++◌, Option, none, some, Bytes,
  codes, length, get_elem?, ltb, if◌then◌else◌, and_then, Outcome, ok, err, Error, transport_error,
}
use opal_cpp.EventStream.Frame.{Message, encode_message}
use opal_cpp.Http.WebSocketPair.{
  End, first, second, CloseReason, normal_close, check_close_reason, queue_depth, PairState,
  Completion, received, sent, session_closed, no_message, engaged, nonempty, take_away,
  deliver_or_queue, send_async, take_front, receive_async, expire, end_session,
}

-- `Send` up to the wait.
unfoldable pub send_starts :
    End → ℕ → Message → PairState → Outcome Bytes → PairState × List Completion
send_starts end k message s (err failure) = (s, sent end k message (err failure) ∷ [])
send_starts end k message s (ok frame) = (
  record s {
    mine = record (s.mine) { blocked_senders = s.mine.blocked_senders ++ ((message, k) ∷ []) };
  },
  [],
)

-- The condition that `Send` waits for.
unfoldable pub can_send : PairState → Bool
can_send s =
    (ltb (length s.mine.queue) queue_depth && not (engaged s.mine.pending_send)) || s.closed

-- `Send` from the wait on.
unfoldable pub send_wakes : End → ℕ → PairState → Message × ℕ → PairState × List Completion
send_wakes end i s (message, k) =
    let awake = record s {
      mine = record (s.mine) { blocked_senders = take_away i s.mine.blocked_senders };
    } in
    if s.closed
    then (awake, sent end k message (err session_closed) ∷ [])
    else deliver_or_queue end k message awake

-- `ReceiveWithin` up to the wait.
unfoldable pub receive_starts : ℕ → PairState → PairState × List Completion
receive_starts k s = (
  record s { mine = record (s.mine) { blocked_receivers = s.mine.blocked_receivers ++ (k ∷ []) } },
  [],
)

-- `arrived`.
unfoldable pub arrived : PairState → Bool
arrived s = (nonempty s.peer.queue && not (engaged s.mine.pending_receive)) || s.closed

unfoldable pub receive_front : End → ℕ → PairState → List Message → PairState × List Completion
receive_front end k s [] = (s, received end k (ok none) ∷ [])
receive_front end k s (message ∷ rest) = take_front end k message rest s

-- `ReceiveWithin` from the wait on, when it wakes and when its time is over.
unfoldable pub receive_wakes : End → ℕ → PairState → ℕ → PairState × List Completion
receive_wakes end i s k =
    receive_front end k
      (record s {
        mine = record (s.mine) { blocked_receivers = take_away i s.mine.blocked_receivers };
      })
      s.peer.queue

unfoldable pub receive_times_out : End → ℕ → PairState → ℕ → PairState × List Completion
receive_times_out end i s k = (
  record s { mine = record (s.mine) { blocked_receivers = take_away i s.mine.blocked_receivers } },
  received end k (err no_message) ∷ [],
)

-- What a sleeping call does once its condition holds; `none` as long as it sleeps.
abbrev pub wake {ℓ} :
    {A : Type ℓ}
    → Bool
    → Option A
    → (A → PairState × List Completion)
    → Option (PairState × List Completion)
wake false call f = none
wake true none f = none
wake true (some call) f = some (f call)

-- What holds of the result that is given holds of the one that is named.
pub after_some {κ} :
    (P : PairState × List Completion → Type κ) {given next : PairState × List Completion}
    → ◌≡◌ {A = Option (PairState × List Completion)} (some given) (some next)
    → P given
    → P next
after_some P {given} {next} e h = subst P (some-injective given next e) h

pub wake-elim {ℓ κ} :
    {A : Type ℓ} (P : PairState × List Completion → Type κ) (ready : Bool) (call : Option A)
    (f : A → PairState × List Completion) {next : PairState × List Completion}
    → wake ready call f ≡ some next
    → ((a : A) → ready ≡ true → call ≡ some a → P (f a))
    → P next
wake-elim P false call f e holds = absurd (none-ne-some _ e)
wake-elim P true none f e holds = absurd (none-ne-some _ e)
wake-elim P true (some a) f e holds = subst P (some-injective _ _ e) (holds a refl refl)

pub data Action : Type 0 where
  -- `SendAsync` and `ReceiveAsync`, with the callback.
  sending_async : ℕ → Message → Action
  receiving_async : ℕ → Option ℕ → Action
  -- The watchdog of the park of that generation, at its deadline and where no thread is to be had.
  deadline_passes : ℕ → Action
  watchdog_fails : ℕ → Action
  -- `Send` and `Receive`; a sleeping call is named by its place.
  sending_starts : ℕ → Message → Action
  sending_wakes : ℕ → Action
  receiving_starts : ℕ → Action
  receiving_wakes : ℕ → Action
  receiving_times_out : ℕ → Action
  -- `Close` and `Kick`.
  closing : Action
  kicking : CloseReason → Action

abbrev pub no_watchdog : Error
no_watchdog = transport_error (codes "websocket pair: cannot arm the receive deadline") true

-- The action of the end that is seen as `mine`; `none` where it cannot happen.
unfoldable pub act : End → Action → PairState → Option (PairState × List Completion)
act end (sending_async k message) s = some (send_async end k message s)
act end (receiving_async k timeout) s = some (receive_async end k timeout s)
act end (deadline_passes generation) s =
    some (expire end generation no_message s s.mine.pending_receive)
act end (watchdog_fails generation) s =
    some (expire end generation no_watchdog s s.mine.pending_receive)
act end (sending_starts k message) s = some (send_starts end k message s (encode_message message))
act end (sending_wakes i) s =
    wake (can_send s) (get_elem? s.mine.blocked_senders i) (send_wakes end i s)
act end (receiving_starts k) s = some (receive_starts k s)
act end (receiving_wakes i) s =
    wake (arrived s) (get_elem? s.mine.blocked_receivers i) (receive_wakes end i s)
act end (receiving_times_out i) s =
    wake (not (arrived s)) (get_elem? s.mine.blocked_receivers i) (receive_times_out end i s)
act end closing s = some (end_session end normal_close s)
act end (kicking why) s =
    wake (check_close_reason why) (some why) (λ reason. end_session end reason s)

-- The session as the other end sees it.
abbrev pub turned : PairState → PairState
turned s = record s { mine = s.peer; peer = s.mine }

unfoldable pub turn_result : PairState × List Completion → Option (PairState × List Completion)
turn_result (s, fired) = some (turned s, fired)

-- An action of either end on the session as the first end sees it.
unfoldable pub step : PairState → End × Action → Option (PairState × List Completion)
step s (first, action) = act first action s
step s (second, action) = and_then (act second action (turned s)) turn_result

unfoldable pub then_all :
    List Completion → PairState × List Completion → Option (PairState × List Completion)
then_all fired (s, more) = some (s, fired ++ more)

-- Actions in the order in which they get the mutex; `none` where one of them cannot happen.
unfoldable pub run : PairState → List (End × Action) → Option (PairState × List Completion)
run s [] = some (s, [])
run s (action ∷ actions) =
    and_then (step s action) (λ moved. and_then (run moved.0 actions) (then_all moved.1))
