-- ===== src/TcpClient/Tests.antt =====
-- A client that connects, for examples.
use event_loop.Prelude.{◌≡◌, refl, true, false, none, some, [], ◌∷◌, ◌*◌, ok}
use event_loop.Buffer.Shrink.{fresh, new_buffer-eq}
use event_loop.Channel.{
  new_channel, enable_writing, enable_reading, disable_all, remove, is_none_event, tie,
}
use event_loop.Connector
use event_loop.Connector.{
  Connector, new_connector, connecting, connected, success, einprogress, reset_task, start_in_loop,
  dispatch, connecting_on, socket_channel, handle_write, remove_and_reset_channel, complete,
  run_task, reset_channel,
}
use event_loop.TcpConnection.State
use event_loop.TcpConnection.State.{TcpConnection, connection_callback}
use event_loop.TcpConnection.Close.{connect_established}
use event_loop.TcpConnection.Machine.{new_tcp_connection}
use event_loop.TcpClient.Single.{IsSingle}
use event_loop.TcpClient.Life.{
  Reach, here, next, enables, connects, writable, runs, IsSingle-reached,
}
use event_loop.TcpClient.Reconnect.{IsRemoved, remove_connection-IsRemoved}
use event_loop.TcpClient.{
  Connection, TcpClient, new_client, enable_retry, connect, name_of, new_connection, deliver,
  handle_writable, remove_connection,
}

-- A client that retries, and connects with socket 5.
abbrev eager : TcpClient
eager = record (new_client (b'c' ∷ []) false) { retry = true }

abbrev under_way : TcpClient
unfolding socket_channel new_channel enable_writing
under_way = record eager {
  connector = record new_connector {
    wanted = true;
    state = connecting;
    channel = some (socket_channel 5);
    opened = 5 ∷ [];
  };
}

under_way-Reach : Reach (new_client (b'c' ∷ []) false) under_way
unfolding enable_retry connect Connector.start start_in_loop Connector.connect dispatch
    connecting_on socket_channel new_channel enable_writing
under_way-Reach = next (next here (enables refl)) (connects true 5 success refl)

-- Its connection, once it is established.
abbrev first : Connection
unfolding new_channel
first = record {
  number = 1;
  conn_name = name_of (b'c' ∷ []) (b'p' ∷ []) 1;
  socket = 5;
  conn = record {
    state = State.connected;
    reading = true;
    channel = record (new_channel 5) {
      reads = true;
      tied = true;
      added_to_loop = true;
      callbacks = record { on_read = true; on_write = true; on_close = true; on_error = true };
    };
    wants_write_complete = false;
    wants_high_water = false;
    high_water_mark = 64 * 1024 * 1024;
    input = fresh;
    output = fresh;
    wire = [];
    calls = connection_callback ∷ [];
    queue = [];
  };
}

abbrev up : TcpClient
unfolding socket_channel new_channel enable_writing
up = record under_way {
  connector = record under_way.connector {
    state = connected;
    channel = some (record (socket_channel 5) { writes = false; added_to_loop = false });
    tasks = reset_task ∷ [];
    given = 5 ∷ [];
  };
  next_conn_id = 2;
  connection = some first;
}

up-Reach : Reach (new_client (b'c' ∷ []) false) up
unfolding handle_writable deliver handle_write remove_and_reset_channel complete socket_channel
    new_channel enable_writing disable_all remove is_none_event new_connection new_tcp_connection
    connect_established enable_reading tie
up-Reach = next under_way-Reach (writable (b'p' ∷ []) 0 false (rw new_buffer-eq refl))

abbrev settled : TcpClient
settled = record up { connector = record up.connector { channel = none; tasks = [] } }

settled-Reach : Reach (new_client (b'c' ∷ []) false) settled
unfolding run_task reset_channel
settled-Reach = next up-Reach (runs reset_task [] 0 success _ refl refl refl)

IsSingle-reached_example : IsSingle settled
IsSingle-reached_example = IsSingle-reached settled-Reach

remove_connection-IsRemoved_example :
    (d : TcpClient) × (remove_connection settled first 6 einprogress ≡ ok d)
    × IsRemoved settled d first 6
unfolding up
remove_connection-IsRemoved_example =
    remove_connection-IsRemoved settled first 6 einprogress (IsSingle-reached settled-Reach) refl
      refl
