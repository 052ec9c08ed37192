-- ===== src/Connector/Tests.antt =====
-- Runs of a connector, for examples.
use event_loop.Prelude.{◌≡◌, refl, true, false, some, none, [], ◌∷◌, ◌++◌, ok, ◌&&◌, not, ◌==◌}
use event_loop.Channel.{Channel, new_channel, enable_writing, disable_all, remove, is_none_event}
use event_loop.Connector.{
  Connector, new_connector, connecting, connected, einprogress, econnrefused, reset_task, start,
  start_in_loop, connect, dispatch, connecting_on, socket_channel, retry, handle_write,
  remove_and_reset_channel, complete, run_task, reset_channel,
}
use event_loop.Connector.Life.{
  starts, retries, writes, runs, Reach, here, next, IsSound-reached, IsWritten, handle_write_lem,
}
use event_loop.Connector.Sockets.{IsSound}
use event_loop.Connector.Backoff.{retry_all, delays_from, retry_all-delays}

-- Refused once, then under way.
abbrev refused_once : Connector
refused_once = record new_connector {
  wanted = true;
  retry_delay = 1000;
  opened = 5 ∷ [];
  closed = 5 ∷ [];
  delays = 500 ∷ [];
}

abbrev under_way : Connector
unfolding socket_channel new_channel enable_writing
under_way = record refused_once {
  state = connecting;
  channel = some (socket_channel 6);
  opened = 6 ∷ 5 ∷ [];
}

refused_once-Reach : Reach new_connector refused_once
unfolding start start_in_loop connect dispatch retry
refused_once-Reach = next here (starts true 5 econnrefused refl)

under_way-Reach : Reach new_connector under_way
unfolding start_in_loop connect dispatch connecting_on socket_channel new_channel enable_writing
under_way-Reach = next refused_once-Reach (retries 6 einprogress refl)

abbrev done : Connector
unfolding socket_channel new_channel enable_writing disable_all
done = record under_way {
  state = connected;
  channel = some (record (disable_all (socket_channel 6)) { added_to_loop = false });
  tasks = reset_task ∷ [];
  given = 6 ∷ [];
}

done-Reach : Reach new_connector done
unfolding handle_write remove_and_reset_channel complete socket_channel new_channel enable_writing
    disable_all remove is_none_event
done-Reach = next under_way-Reach (writes 0 false refl)

abbrev settled : Connector
settled = record done { channel = none; tasks = [] }

settled-Reach : Reach new_connector settled
unfolding run_task reset_channel
settled-Reach = next done-Reach (runs reset_task [] 0 einprogress refl refl)

IsSound-reached_example : IsSound settled
IsSound-reached_example = IsSound-reached settled-Reach

handle_write_lem_example :
    (ch : Channel) × ((under_way.channel ≡ some ch)
      × ((d : Connector) × ((handle_write under_way 111 false ≡ ok d)
            × IsWritten under_way d ch.fd (111 == 0 && not false))))
unfolding under_way
handle_write_lem_example =
    handle_write_lem under_way 111 false (IsSound-reached under_way-Reach) refl

retry_all-delays_example :
    (retry_all (record new_connector { wanted = true }) (3 ∷ 4 ∷ 3 ∷ [])).delays
    ≡ [] ++ delays_from 0 (3 ∷ 4 ∷ 3 ∷ [])
retry_all-delays_example =
    retry_all-delays (3 ∷ 4 ∷ 3 ∷ []) (record new_connector { wanted = true }) 0 refl refl
