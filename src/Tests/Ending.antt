-- ===== src/Tests/Ending.antt =====
-- The theorems on the end of a websocket connection at concrete sockets.
use cosmoguard.Prelude.{
  ℕ, zero, suc, ◌<◌, ◌≤◌, ◌≡◌, refl, [], ◌∷◌, true, false, none, nat_eq, string_eq,
}
use cosmoguard.Go.{ok, panic, repeated_read}
use cosmoguard.Rules.{deny}
use cosmoguard.Ws.Client.{Sockets, Frame, message, broken, repeated, new_json_rpc_ws_client}
use cosmoguard.Ws.Proxy
use cosmoguard.Ws.Proxy.{WsDeps, State}
use cosmoguard.Ws.Proxy.Ending.{handle_connection-panics, Fails}
use cosmoguard.Tests.Samples.{globs, table, codec, upstream}
use cosmoguard.Tests.Broker.{idle}

-- A socket with so many messages to read, and then a normal closure.
unfoldable pub next_frame : ℕ → ℕ × Frame
next_frame zero = (zero, broken "EOF")
next_frame (suc n) = (n, message (1 ∷ []))

abbrev pub some_messages : Sockets
some_messages = record {
  Conn = ℕ;
  read_message = next_frame;
  write_message = λ b c. (c, none);
  close_conn = λ c. (c, none);
  is_unexpected_close_error = λ e codes. false;
}

abbrev pub deps : Sockets → WsDeps
deps net = record { globs = globs; cache = table; codec = codec; net = net; up = upstream }

abbrev session : State (deps some_messages)
session = record { addr = 3; client = new_json_rpc_ws_client 1; broker = idle; cache = [] }

abbrev over : State (deps some_messages)
over = record {
  addr = 3;
  client = record { conn = 0; closed = true; on_disconnect = false };
  broker = idle;
  cache = [];
}

-- A socket that was closed with a code that is not listed, with so many reads before one panics.
failed_frame : ℕ → ℕ × Frame
failed_frame zero = (zero, repeated)
failed_frame (suc n) = (n, broken "close 1002")

abbrev refused : Sockets
refused = record some_messages {
  read_message = failed_frame;
  is_unexpected_close_error = λ e codes. true;
}

abbrev session_refused : State (deps refused)
session_refused = record {
  addr = 3;
  client = record { conn = 2; closed = false; on_disconnect = false };
  broker = idle;
  cache = [];
}

two_fail : Fails (deps refused) "close 1002" 2 2
unfolding failed_frame
two_fail = (1, refl, (0, refl, (0, refl)))

handle_connection-panics_example :
    (1000 ≤ 2 → Proxy.handle_connection (deps refused) 1000 [] deny session_refused ≡ ok none)
    × (2 < 1000
        → Proxy.handle_connection (deps refused) 1000 [] deny session_refused ≡ panic repeated_read)
handle_connection-panics_example =
    handle_connection-panics (deps refused) 2 1000 [] deny session_refused "close 1002" refl refl
      two_fail
