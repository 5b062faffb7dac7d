-- ===== src/Http/WebSocketPair.antt =====
-- runtime/src/http/websocket_pair.cc and runtime/include/opal/http/websocket.h: the in-memory
-- session of two ends. Each action is what one call does while it holds the mutex, and gives the
-- completions that it fires, in order. A callback is a number. The arrays that are indexed by an end
-- are a record for each end; a method sees its own end's as `mine` and the other's as `peer`. The
-- calls that sleep on the condition variable are kept themselves, where the source counts them.
pub mod Calls
pub mod Invariant
pub mod Fifo
pub mod Completions
mod Runs
use opal_cpp.Common.{
  ℕ, zero, suc, ◌+◌, ◌%◌, ◌^◌, Bool, true, false, not, ◌&&◌, ◌||◌, List, [], ◌∷◌, ◌++◌, Option,
  none, some, Bytes, codes, length, get_elem?, ltb, leb, ◌==◌, if◌then◌else◌, and_then, Outcome, ok,
  err, Error, transport_error, validation_error, timeout_error,
}
use opal_cpp.EventStream.Frame.{Message, encode_message}

-- A send index.
pub data End : Type 0 where
  first second : End

abbrev pub other : End → End
other first = second
other second = first

pub record CloseReason : Type 0 where
  pub code : ℕ
  pub reason : Bytes

abbrev pub normal_close : CloseReason
normal_close = record { code = 1000; reason = [] }

-- `CheckCloseReason`; false where it is fatal.
unfoldable pub check_close_reason : CloseReason → Bool
check_close_reason why =
    (why.code == 1000 || (leb 3000 why.code && leb why.code 4999)) && leb (length why.reason) 123

abbrev pub queue_depth : ℕ
queue_depth = 8

-- What `PairState` has at the index of one end; `queue` is what that end has sent.
pub record EndState : Type 0 where
  pub queue : List Message
  pub pending_receive : Option ℕ
  pub pending_send : Option (Message × ℕ)
  pub receive_park_generation : ℕ  -- uint64
  pub blocked_receivers : List ℕ
  pub blocked_senders : List (Message × ℕ)
  pub peer_close : Option CloseReason

pub record PairState : Type 0 where
  pub mine : EndState
  pub peer : EndState
  pub closed : Bool

abbrev pub fresh_end : EndState
fresh_end = record {
  queue = [];
  pending_receive = none;
  pending_send = none;
  receive_park_generation = 0;
  blocked_receivers = [];
  blocked_senders = [];
  peer_close = none;
}

-- `InMemoryWebSocketPair::Create`.
abbrev pub fresh_pair : PairState
fresh_pair = record { mine = fresh_end; peer = fresh_end; closed = false }

-- A callback fired, or a blocking call that returns, at the end that called.
pub data Completion : Type 0 where
  received : End → ℕ → Outcome (Option Message) → Completion
  sent : End → ℕ → Message → Outcome (Unit {0}) → Completion

abbrev pub session_closed : Error
session_closed = transport_error (codes "websocket pair: session is closed") true

abbrev pub no_message : Error
no_message = timeout_error (codes "websocket pair: no message within the receive deadline")

abbrev pub engaged {ℓ} : {A : Type ℓ} → Option A → Bool
engaged none = false
engaged (some a) = true

abbrev pub nonempty {ℓ} : {A : Type ℓ} → List A → Bool
nonempty [] = false
nonempty (a ∷ rest) = true

abbrev pub take_away {ℓ} : {A : Type ℓ} → ℕ → List A → List A
take_away i [] = []
take_away zero (a ∷ rest) = rest
take_away (suc i) (a ∷ rest) = a ∷ take_away i rest

-- `TakePeerReceiverLocked`, and the queue where no receive is parked.
unfoldable pub hand_over : End → Message → PairState → Option ℕ → PairState × List Completion
hand_over end message s none =
    (record s { mine = record (s.mine) { queue = s.mine.queue ++ (message ∷ []) } }, [])
hand_over end message s (some k) = (
  record s { peer = record (s.peer) { pending_receive = none } },
  received (other end) k (ok (some message)) ∷ [],
)

abbrev pub then_fire : PairState × List Completion → Completion → PairState × List Completion
then_fire (s, fired) last = (s, fired ++ (last ∷ []))

unfoldable pub deliver_or_queue : End → ℕ → Message → PairState → PairState × List Completion
deliver_or_queue end k message s =
    then_fire (hand_over end message s s.peer.pending_receive) (sent end k message (ok tt))

-- `SendAsync`, with what the codec says of the message.
unfoldable pub send_checked :
    End → ℕ → Message → PairState → Outcome Bytes → PairState × List Completion
send_checked end k message s (err failure) = (s, sent end k message (err failure) ∷ [])
send_checked end k message s (ok frame) =
    if s.closed
    then (s, sent end k message (err session_closed) ∷ [])
    else if engaged s.mine.pending_send || nonempty s.mine.blocked_senders
    then (
      s,
      sent end k message
            (err (validation_error (codes "websocket pair: a send is already in flight")))
          ∷ [],
    )
    else if leb queue_depth (length s.mine.queue)
    then (record s { mine = record (s.mine) { pending_send = some (message, k) } }, [])
    else deliver_or_queue end k message s

unfoldable pub send_async : End → ℕ → Message → PairState → PairState × List Completion
send_async end k message s = send_checked end k message s (encode_message message)

-- `AbsorbPeerPendingSendLocked`, by the slot of the peer's send.
unfoldable pub absorb : End → PairState → Option (Message × ℕ) → PairState × List Completion
absorb end s none = (s, [])
absorb end s (some (message, k)) = if leb queue_depth (length s.peer.queue) then (s, []) else (
  record s {
    peer = record (s.peer) { queue = s.peer.queue ++ (message ∷ []); pending_send = none };
  },
  sent (other end) k message (ok tt) ∷ [],
)

-- A receive that takes the front of the queue.
unfoldable pub take_front :
    End → ℕ → Message → List Message → PairState → PairState × List Completion
take_front end k message rest s =
    let taken = record s { peer = record (s.peer) { queue = rest } } in
    then_fire (absorb end taken s.peer.pending_send) (received end k (ok (some message)))

-- The deadline that no time is left for; a negative one is 0 here.
abbrev pub polls : Option ℕ → Bool
polls none = false
polls (some timeout) = timeout == 0

-- `ReceiveAsyncWithin` from the queue on.
unfoldable pub receive_or_park :
    End → ℕ → Option ℕ → PairState → List Message → PairState × List Completion
receive_or_park end k timeout s (message ∷ rest) = take_front end k message rest s
receive_or_park end k timeout s [] =
    if s.closed
    then (s, received end k (ok none) ∷ [])
    else if polls timeout
    then (s, received end k (err no_message) ∷ [])
    else (
      record s {
        mine = record (s.mine) {
          pending_receive = some k;
          receive_park_generation = (s.mine.receive_park_generation + 1) % 2 ^ 64;
        };
      },
      [],
    )

unfoldable pub receive_async : End → ℕ → Option ℕ → PairState → PairState × List Completion
receive_async end k timeout s =
    if engaged s.mine.pending_receive || nonempty s.mine.blocked_receivers
    then (
      s,
      received end k
            (err (validation_error (codes "websocket pair: a receive is already outstanding")))
          ∷ [],
    )
    else receive_or_park end k timeout s s.peer.queue

-- What a watchdog does of the park that it was armed with: `failure` is the timeout, or that it
-- cannot be armed.
unfoldable pub expire : End → ℕ → Error → PairState → Option ℕ → PairState × List Completion
expire end generation failure s none = (s, [])
expire end generation failure s (some k) =
    if s.mine.receive_park_generation == generation
    then (
      record s { mine = record (s.mine) { pending_receive = none } },
      received end k (err failure) ∷ [],
    )
    else (s, [])

-- `TerminalWaiters::Fire` of one end: its send first.
unfoldable pub fire_receive : End → Option ℕ → List Completion
fire_receive end none = []
fire_receive end (some k) = received end k (ok none) ∷ []

unfoldable pub fire_waiters : End → EndState → Option (Message × ℕ) → List Completion
fire_waiters end e none = fire_receive end e.pending_receive
fire_waiters end e (some (message, k)) =
    sent end k message (err session_closed) ∷ fire_receive end e.pending_receive

unfoldable pub emptied : EndState → EndState
emptied e = record e { pending_receive = none; pending_send = none }

unfoldable pub fire_all : End → PairState → List Completion
fire_all first s =
    fire_waiters first s.mine s.mine.pending_send ++ fire_waiters second s.peer s.peer.pending_send
fire_all second s =
    fire_waiters first s.peer s.peer.pending_send ++ fire_waiters second s.mine s.mine.pending_send

-- `End`.
unfoldable pub end_session : End → CloseReason → PairState → PairState × List Completion
end_session end why s =
    let reason = if s.closed then s.peer.peer_close else some why in
    (
      record {
        mine = emptied s.mine;
        peer = record (emptied s.peer) { peer_close = reason };
        closed = true;
      },
      fire_all end s,
    )
