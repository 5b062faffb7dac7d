-- ===== src/Http/WebSocketPair/Runs.antt =====
-- Runs of the in-memory session.
use opal_cpp.Common.{
  ℕ, ◌+◌, ◌≤◌, ◌≡◌, refl, List, [], ◌∷◌, none, some, length, ok, arith, true, false,
}
use opal_cpp.EventStream.Value.{big_endian}
use opal_cpp.EventStream.Frame.{
  Message, encode_message, encode_headers, encode_block, frame_of, prelude, front, crc32, crc_loop,
  crc_entry, crc_step,
}
use opal_cpp.Http.WebSocketPair.{
  End, first, second, normal_close, queue_depth, PairState, Completion, received, sent, fresh_pair,
  hand_over, deliver_or_queue, send_checked, send_async, absorb, take_front, receive_or_park,
  receive_async, fire_receive, fire_waiters, fire_all, emptied, end_session, fresh_end,
}
use opal_cpp.Http.WebSocketPair.Invariant.{PairInvariant, PairInvariant-run}
use opal_cpp.Http.WebSocketPair.Fifo.{ServesBoth}
use opal_cpp.Http.WebSocketPair.Fifo.Trace.{run-ServesBoth}
use opal_cpp.Http.WebSocketPair.Completions.{completions, outstanding, issued}
use opal_cpp.Http.WebSocketPair.Completions.Balance.{completed_once}
use opal_cpp.Http.WebSocketPair.Completions.Progress.{close-completes_all}
use opal_cpp.Http.WebSocketPair.Calls.{
  Action, act, step, run, turned, turn_result, then_all, receive_starts, arrived, receive_wakes,
  receive_front, sending_async, receiving_async, receiving_starts, receiving_wakes, closing,
}

abbrev letter : ℕ → Message
letter c = record { headers = []; payload = c ∷ [] }

-- A receive that is parked, a send that is handed to it, two that are queued, and a close.
abbrev talk : List (End × Action)
talk =
    (second, receiving_async 1 none)
    ∷ (first, sending_async 2 (letter b'a'))
    ∷ (first, sending_async 3 (letter b'b'))
    ∷ (second, receiving_starts 4)
    ∷ (first, sending_async 5 (letter b'c'))
    ∷ (second, receiving_wakes 0)
    ∷ (first, receiving_async 6 none)
    ∷ (first, receiving_starts 7)
    ∷ (second, closing)
    ∷ []

abbrev talk_end : PairState
talk_end = record {
  mine = record fresh_end {
    queue = letter b'c' ∷ [];
    receive_park_generation = 1;
    blocked_receivers = 7 ∷ [];
    peer_close = some normal_close;
  };
  peer = record fresh_end { receive_park_generation = 1 };
  closed = true;
}

abbrev talk_fired : List Completion
talk_fired =
    received second 1 (ok (some (letter b'a')))
    ∷ sent first 2 (letter b'a') (ok tt)
    ∷ sent first 3 (letter b'b') (ok tt)
    ∷ sent first 5 (letter b'c') (ok tt)
    ∷ received second 4 (ok (some (letter b'b')))
    ∷ received first 6 (ok none)
    ∷ []

talk_goes : run fresh_pair talk ≡ some (talk_end, talk_fired)
unfolding run then_all step turn_result act send_async send_checked deliver_or_queue hand_over
    receive_async receive_or_park take_front absorb receive_starts arrived receive_wakes
    receive_front end_session emptied fire_all fire_waiters fire_receive encode_message
    encode_headers encode_block frame_of front prelude crc32 crc_loop crc_entry crc_step big_endian
talk_goes = refl

PairInvariant-run_example : PairInvariant talk_end
PairInvariant-run_example = PairInvariant-run talk (talk_end, talk_fired) talk_goes

run-ServesBoth_example :
    ServesBoth first fresh_pair (talk_end, talk_fired)
    × ((length talk_end.mine.queue ≤ queue_depth) × (length talk_end.peer.queue ≤ queue_depth))
run-ServesBoth_example = run-ServesBoth talk (talk_end, talk_fired) talk_goes

completed_once_example : completions 4 talk_fired + outstanding 4 talk_end ≡ issued 4 talk
completed_once_example = completed_once 4 talk (talk_end, talk_fired) talk_goes

close-completes_all_example :
    (more : List (End × Action)) × (last : PairState × List Completion) × (run talk_end more
      ≡ some last)
    × ((k : ℕ)
        → (issued k more ≡ 0) × (completions k talk_fired + completions k last.1 ≡ issued k talk))
close-completes_all_example = close-completes_all talk (talk_end, talk_fired) talk_goes refl

-- A queue that is full, with a ninth send that is parked.
abbrev full : List Message
full =
    letter b'a'
    ∷ letter b'b'
    ∷ letter b'c'
    ∷ letter b'd'
    ∷ letter b'e'
    ∷ letter b'f'
    ∷ letter b'g'
    ∷ letter b'h'
    ∷ []

abbrev crowded : PairState
crowded = record {
  mine = fresh_end;
  peer = record fresh_end { queue = full; pending_send = some (letter b'i', 9) };
  closed = false;
}

crowded-PairInvariant : PairInvariant crowded
crowded-PairInvariant = ground arith

ninth_parks :
    send_async first 9
      (letter b'i')
      (record { mine = record fresh_end { queue = full }; peer = fresh_end; closed = false })
    ≡ (turned crowded, [])
unfolding send_async send_checked encode_message encode_headers encode_block frame_of front prelude
    crc32 crc_loop crc_entry crc_step big_endian
ninth_parks = refl
