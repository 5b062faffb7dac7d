-- ===== src/Http/WebSocketPair/Completions/Progress.antt =====
-- What a close of the in-memory session frees.
use native.Mathlib.Decide.{dec_lt}
use opal_cpp.Common.{
  ℕ, zero, suc, ◌+◌, ◌<◌, ◌≡◌, refl, ◌∙◌, inl, inr, arith, true, false, List, [], ◌∷◌, ◌++◌, Option,
  some, length, List-cases,
}
use opal_cpp.EventStream.Frame.{Message}
use opal_cpp.Http.WebSocketPair.{
  End, first, second, EndState, PairState, Completion, fresh_pair, take_away, absorb, take_front,
  engaged,
}
use opal_cpp.Http.WebSocketPair.Calls.{
  Action, act, step, run, turned, turn_result, then_all, send_wakes, arrived, receive_wakes,
  receive_front, can_send, sending_wakes, receiving_wakes,
}
use opal_cpp.Http.WebSocketPair.Invariant.{PairInvariant, PairInvariant-step, PairInvariant-run}
use opal_cpp.Http.WebSocketPair.Completions.Balance.{run-Balanced, completed_once}
use opal_cpp.Http.WebSocketPair.Completions.{
  completions, waiting_receivers, waiting_senders, outstanding_at, outstanding, issues, issued,
}

-- The calls that sleep.
abbrev pub asleep_at : EndState → ℕ
asleep_at e = length e.blocked_receivers + length e.blocked_senders

abbrev pub asleep : PairState → ℕ
asleep s = asleep_at s.mine + asleep_at s.peer

-- What waking one call leaves.
abbrev Woken : PairState → Option (PairState × List Completion) → Type 0
Woken s result =
    (next : PairState × List Completion) × (result ≡ some next)
    × (next.0.closed ≡ true)
    × (suc (asleep next.0) ≡ asleep s)

asleep-receive_front :
    (end : End) (k : ℕ) (s : PairState) (queue : List Message)
    → (asleep (receive_front end k s queue).0 ≡ asleep s)
      × ((receive_front end k s queue).0.closed ≡ s.closed)
unfolding receive_front take_front absorb
asleep-receive_front end k s [] = (refl, refl)
asleep-receive_front end k s (message ∷ rest) = ground arith

wakes_receiver :
    (end : End) (k : ℕ) (calls : List ℕ) (s : PairState)
    → s.closed ≡ true
    → s.mine.blocked_receivers ≡ k ∷ calls
    → Woken s (act end (receiving_wakes 0) s)
unfolding act arrived receive_wakes
wakes_receiver end k calls s closed e =
    let awake = record s {
      mine = record (s.mine) { blocked_receivers = take_away 0 s.mine.blocked_receivers };
    } in
    let (same, shut) = asleep-receive_front end k awake s.peer.queue in
    (receive_wakes end 0 s k, ground arith, shut ∙ closed, ground arith)

wakes_sender :
    (end : End) (call : Message × ℕ) (calls : List (Message × ℕ)) (s : PairState)
    → s.closed ≡ true
    → s.mine.blocked_senders ≡ call ∷ calls
    → Woken s (act end (sending_wakes 0) s)
unfolding act can_send send_wakes
wakes_sender end (message, k) calls s closed e =
    (send_wakes end 0 s (message, k), ground arith, ground arith, ground arith)

wakes_at :
    (end : End) (s : PairState)
    → s.closed ≡ true
    → 0 < asleep_at s.mine
    → (action : Action) × Woken s (act end action s) × ((k : ℕ) → issues k action ≡ 0)
wakes_at end s closed some_sleep = elim (List-cases s.mine.blocked_receivers) [
  | inr (k, calls, e) ↦ (receiving_wakes 0, wakes_receiver end k calls s closed e, λ j. refl)
  | inl none_receives ↦ elim (List-cases s.mine.blocked_senders) [
    | inr (call, calls, e) ↦ (sending_wakes 0, wakes_sender end call calls s closed e, λ j. refl)
    | inl none_sends ↦ absurd (ground arith)
  ]
]

wakes_one :
    (s : PairState)
    → s.closed ≡ true
    → 0 < asleep s
    → (action : End × Action) × Woken s (step s action) × ((k : ℕ) → issues k action.1 ≡ 0)
unfolding step turn_result
wakes_one s closed some_sleep = elim (dec_lt 0 (asleep_at s.mine)) [
  | yes here ↦
      let (action, woken, silent) = wakes_at first s closed here in ((first, action), woken, silent)
  | no there ↦
      let (action, woken, silent) = wakes_at second (turned s) closed (omega arith) in
      let (next, e, shut, fewer) = woken in
      ((second, action), ((turned next.0, next.1), rw e refl, shut, omega arith), silent)
]

no_receivers : (k : ℕ) (calls : List ℕ) → length calls ≡ 0 → waiting_receivers k calls ≡ 0
no_receivers k [] e = refl
no_receivers k (j ∷ calls) e = absurd (omega arith)

no_senders : (k : ℕ) (calls : List (Message × ℕ)) → length calls ≡ 0 → waiting_senders k calls ≡ 0
no_senders k [] e = refl
no_senders k (call ∷ calls) e = absurd (omega arith)

outstanding_at_end :
    (k : ℕ) (e : EndState)
    → engaged e.pending_receive ≡ false
    → engaged e.pending_send ≡ false
    → asleep_at e ≡ 0
    → outstanding_at k e ≡ 0
outstanding_at_end k e no_receive no_send awake =
    ground (arith, no_receivers k e.blocked_receivers, no_senders k e.blocked_senders)

outstanding_of_awake :
    (k : ℕ) (s : PairState) → PairInvariant s → s.closed ≡ true → asleep s ≡ 0 → outstanding k s ≡ 0
outstanding_of_awake k s h closed awake =
    let mine : outstanding_at k s.mine ≡ 0 =
      outstanding_at_end k s.mine (ground arith) (ground arith) (omega arith) in
    let peer : outstanding_at k s.peer ≡ 0 =
      outstanding_at_end k s.peer (ground arith) (ground arith) (omega arith) in
    omega arith

-- A run that wakes whoever sleeps in a closed session.
Frees : PairState → Type 0
Frees s =
    (actions : List (End × Action)) × (next : PairState × List Completion) × (run s actions
      ≡ some next)
    × ((k : ℕ) → (outstanding k next.0 ≡ 0) × (issued k actions ≡ 0))

then-Frees :
    (s : PairState) (action : End × Action) (moved : PairState × List Completion)
    → step s action ≡ some moved
    → ((k : ℕ) → issues k action.1 ≡ 0)
    → Frees moved.0
    → Frees s
unfolding run then_all Frees
then-Frees s action moved stepped silent (actions, next, ran, free) = (
  action ∷ actions,
  (next.0, moved.1 ++ next.1),
  rw (stepped, ran) refl,
  λ k. ((free k).0, omega (arith, silent k, (free k).1)),
)

frees : (n : ℕ) (s : PairState) → PairInvariant s → s.closed ≡ true → asleep s ≡ n → Frees s
unfolding run Frees
frees zero s h closed e = ([], (s, []), refl, λ k. (outstanding_of_awake k s h closed e, refl))
frees (suc n) s h closed e =
    let (action, woken, silent) = wakes_one s closed (omega arith) in
    let (moved, stepped, shut, fewer) = woken in
    then-Frees s action moved stepped silent
      (frees n moved.0 (PairInvariant-step s action moved h stepped) shut (omega arith))

-- Nothing waits for ever once the session is closed: after any run that closes it there is a run
-- that makes no new call and after which every call of both ends, parked or asleep, has been
-- completed exactly once.
pub close-completes_all :
    (actions : List (End × Action)) (next : PairState × List Completion)
    → run fresh_pair actions ≡ some next
    → next.0.closed ≡ true
    → (more : List (End × Action)) × (last : PairState × List Completion) × (run next.0 more
        ≡ some last)
      × ((k : ℕ)
          → (issued k more ≡ 0) × (completions k next.1 + completions k last.1 ≡ issued k actions))
unfolding Frees
close-completes_all actions next e closed =
    let (more, last, ran, free) =
      frees (asleep next.0) next.0 (PairInvariant-run actions next e) closed refl in
    (
      more,
      last,
      ran,
      λ k. (
        (free k).1,
        omega (
          arith,
          (free k).0,
          (free k).1,
          completed_once k actions next e,
          run-Balanced k next.0 more last ran,
        ),
      ),
    )
