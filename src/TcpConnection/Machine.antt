-- ===== src/TcpConnection/Machine.antt =====
-- TcpConnection.cpp: the constructor, and what may happen to a connection as one function.
use event_loop.Prelude.{ℕ, ◌*◌, ◌+◌, Bool, true, false, List, [], ◌∷◌, Result, ok, ◌>>=◌}
use event_loop.Buffer.{new_buffer, initial_size}
use event_loop.Buffer.ReadFd.{Readv}
use event_loop.Channel.{new_channel}
use event_loop.TcpConnection.State.{
  connecting, TcpConnection, Write, Call, connection_callback, close_callback, message_callback,
  write_complete, high_water, shutdown_write, log_error, close_in_loop,
}
use event_loop.TcpConnection.Send.{send}
use event_loop.TcpConnection.Close.{
  shutdown, force_close, force_close_with_delay, force_close_in_loop, start_read_in_loop,
}
use event_loop.TcpConnection.Events.{handle_read, handle_write}

-- With all four callbacks of the channel set, and whether the owner sets a callback for complete writes. No
-- callback for the high-water mark is set.
unfoldable pub new_tcp_connection : ℕ → Bool → Result TcpConnection
unfolding new_channel
new_tcp_connection sockfd wants_write_complete = do
  input ← new_buffer initial_size
  output ← new_buffer initial_size
  ok (record {
    state = connecting;
    reading = true;
    channel = record (new_channel sockfd) {
      callbacks = record { on_read = true; on_write = true; on_close = true; on_error = true };
    };
    wants_write_complete = wants_write_complete;
    wants_high_water = false;
    high_water_mark = 64 * 1024 * 1024;
    input = input;
    output = output;
    wire = [];
    calls = [];
    queue = [];
  })

-- What the owner, the kernel and the functors of the loop do to an open connection.
pub data Event : Type 0 where
  sends : List ℕ → Write → Event
  shuts_down forces_close delays_close closes_in_loop starts_read : Event
  reads : Readv → Event
  writes : Write → Event

unfoldable pub handle : TcpConnection → Event → Result TcpConnection
handle c (sends bytes answer) = send c bytes answer
handle c shuts_down = ok (shutdown c)
handle c forces_close = ok (force_close c)
handle c delays_close = ok (force_close_with_delay c).0
handle c closes_in_loop = force_close_in_loop c
handle c starts_read = ok (start_read_in_loop c)
handle c (reads answer) = handle_read c answer
handle c (writes answer) = handle_write c answer

-- How often the close callback was called.
abbrev pub close_count : Call → ℕ
close_count close_callback = 1
close_count connection_callback = 0
close_count message_callback = 0
close_count write_complete = 0
close_count (high_water n) = 0
close_count shutdown_write = 0
close_count log_error = 0
close_count close_in_loop = 0

abbrev pub close_calls : List Call → ℕ
close_calls [] = 0
close_calls (x ∷ xs) = close_count x + close_calls xs
