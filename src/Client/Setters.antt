-- ===== src/Client/Setters.antt =====
-- The setters of `client_impl` (sio_client_impl.h).
use taquin_client_project.Base.{ℕ, ltb, if◌then◌else◌, none, some}
use taquin_client_project.Client.{Client}

-- The setters of `SYNTHESIS_SETTER`.
unfoldable pub set_open_listener : ℕ → Client → Client
set_open_listener l c = record c { open_listener = some l }

unfoldable pub set_fail_listener : ℕ → Client → Client
set_fail_listener l c = record c { fail_listener = some l }

unfoldable pub set_reconnect_listener : ℕ → Client → Client
set_reconnect_listener l c = record c { reconnect_listener = some l }

unfoldable pub set_reconnecting_listener : ℕ → Client → Client
set_reconnecting_listener l c = record c { reconnecting_listener = some l }

unfoldable pub set_close_listener : ℕ → Client → Client
set_close_listener l c = record c { close_listener = some l }

unfoldable pub set_socket_open_listener : ℕ → Client → Client
set_socket_open_listener l c = record c { socket_open_listener = some l }

unfoldable pub set_socket_close_listener : ℕ → Client → Client
set_socket_close_listener l c = record c { socket_close_listener = some l }

unfoldable pub clear_con_listeners : Client → Client
clear_con_listeners c = record c {
  open_listener = none;
  close_listener = none;
  fail_listener = none;
  reconnect_listener = none;
  reconnecting_listener = none;
}

unfoldable pub clear_socket_listeners : Client → Client
clear_socket_listeners c = record c { socket_open_listener = none; socket_close_listener = none }

-- The public setter takes an `int` and this one an `unsigned`.
unfoldable pub set_reconnect_attempts : ℕ → Client → Client
set_reconnect_attempts attempts c = record c { reconn_attempts = attempts }

unfoldable pub set_reconnect_delay : ℕ → Client → Client
set_reconnect_delay millis c = record c {
  reconn_delay = millis;
  reconn_delay_max = if ltb c.reconn_delay_max millis then millis else c.reconn_delay_max;
}

unfoldable pub set_reconnect_delay_max : ℕ → Client → Client
set_reconnect_delay_max millis c = record c {
  reconn_delay_max = millis;
  reconn_delay = if ltb millis c.reconn_delay then millis else c.reconn_delay;
}
