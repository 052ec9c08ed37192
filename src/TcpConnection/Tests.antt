-- ===== src/TcpConnection/Tests.antt =====
-- TcpConnection.cpp at concrete connections.
use event_loop.Prelude.{◌≡◌, ◌⊎◌, refl, ◌++◌, Bool, true, false, [], ◌∷◌, ok, err, arith, none}
use event_loop.Buffer.{Buffer, contents}
use event_loop.Buffer.Bounds.{IsValid}
use event_loop.Channel.{Channel}
use event_loop.TcpConnection.State.{
  State, connecting, connected, TcpConnection, wrote, refused, broken,
}
use event_loop.TcpConnection.Send.{send_in_loop}
use event_loop.TcpConnection.Close.{connect_established}
use event_loop.TcpConnection.Stream.{stream, IsWatched, send_in_loop_lem}
use event_loop.TcpConnection.Draining.{write_events, resent, write_events_lem}
use event_loop.TcpConnection.Posted.{run_all_posted, sent, run_all_posted-sent}

-- A channel that is watched for what the two flags say.
abbrev watching : Bool → Bool → Channel
watching r w = record {
  fd = 5;
  reads = r;
  writes = w;
  revents = 0;
  index = none;
  log_hup = true;
  tied = true;
  event_handling = false;
  added_to_loop = true;
  callbacks = record { on_read = true; on_write = true; on_close = true; on_error = true };
}

abbrev empty : Buffer
empty = record { buffer = 0 ∷ 0 ∷ 0 ∷ 0 ∷ 0 ∷ 0 ∷ 0 ∷ 0 ∷ []; reader_index = 8; writer_index = 8 }

-- Three bytes wait.
abbrev waiting : Buffer
waiting = record {
  buffer = 0 ∷ 0 ∷ 0 ∷ 0 ∷ 0 ∷ 0 ∷ 0 ∷ 0 ∷ 97 ∷ 98 ∷ 99 ∷ [];
  reader_index = 8;
  writer_index = 11;
}

abbrev at_state : State → Channel → Buffer → TcpConnection
at_state s ch out = record {
  state = s;
  reading = true;
  channel = ch;
  wants_write_complete = true;
  wants_high_water = true;
  high_water_mark = 2;
  input = empty;
  output = out;
  wire = [];
  calls = [];
  queue = [];
}

abbrev idle : TcpConnection
idle = at_state connected (watching true false) empty

abbrev busy : TcpConnection
busy = at_state connected (watching true true) waiting

abbrev fresh : TcpConnection
fresh = at_state connecting (watching false false) empty

empty-IsValid : IsValid empty
empty-IsValid = omega arith

waiting-IsValid : IsValid waiting
waiting-IsValid = omega arith

-- Two of four bytes are written at once, and two wait.
send_in_loop_lem_example :
    (d : TcpConnection) × (send_in_loop idle (1 ∷ 2 ∷ 3 ∷ 4 ∷ []) (wrote 2) ≡ ok d)
    × IsValid d.output
    × IsWatched d
    × ((stream d ≡ stream idle ++ (1 ∷ 2 ∷ 3 ∷ 4 ∷ []))
        ⊎ ((wrote 2 ≡ refused broken) × (stream d ≡ stream idle)))
send_in_loop_lem_example =
    send_in_loop_lem idle (1 ∷ 2 ∷ 3 ∷ 4 ∷ []) (wrote 2) (λ e. cc) empty-IsValid (omega arith)
      (λ h. absurd (omega arith))

write_events_lem_example :
    write_events busy (2 ∷ 3 ∷ [])
    ≡ ok (record busy { wire = busy.wire ++ resent (contents busy.output) (2 ∷ 3 ∷ []) })
write_events_lem_example =
    write_events_lem busy (2 ∷ 3 ∷ []) waiting-IsValid (omega arith) refl
      (omega arith, (omega arith, tt))

-- Of the three bytes of the first string, the one behind the zero is lost.
run_all_posted-sent_example :
    (d : TcpConnection) × (run_all_posted idle
        ((104 ∷ 0 ∷ 105 ∷ [], wrote 0) ∷ (33 ∷ [], wrote 1) ∷ [])
      ≡ ok d)
    × (stream d ≡ stream idle ++ sent ((104 ∷ 0 ∷ 105 ∷ [], wrote 0) ∷ (33 ∷ [], wrote 1) ∷ []))
run_all_posted-sent_example =
    run_all_posted-sent idle ((104 ∷ 0 ∷ 105 ∷ [], wrote 0) ∷ (33 ∷ [], wrote 1) ∷ []) (λ e. cc)
      empty-IsValid (omega arith) (λ h. absurd (omega arith)) (omega arith, (omega arith, tt))
      ((λ e. cc), ((λ e. cc), tt))

abbrev open_fresh : TcpConnection
unfolding connect_established
open_fresh = elim (connect_established fresh) [ ok d ↦ d | err e ↦ fresh ]
