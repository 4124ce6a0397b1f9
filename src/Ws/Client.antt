-- ===== src/Ws/Client.antt =====
-- `JsonRpcWsClient` of ws_jsonrpc_client.go: a websocket that carries JSON-RPC messages. The socket
-- of github.com/gorilla/websocket is a parameter; the mutexes are left out.
use Prim.Native.String
use cosmoguard.Prelude.{
  ℕ, Bool, true, false, List, [], ◌∷◌, String, Option, none, some, if◌then◌else◌,
}
use cosmoguard.Go.{Result, ok, panic, ◌>>=◌, Bytes, repeated_read}
use cosmoguard.Cache.{Error}
use cosmoguard.JsonRpc.Msg.{JsonRpcMsg, Codec, parse_json_rpc_message}

-- What `ReadMessage` returns, or `repeated` where it panics: that of github.com/gorilla/websocket does so
-- after many reads of a connection that has failed.
pub data Frame : Type 0 where
  message : Bytes → Frame
  broken : Error → Frame
  repeated : Frame

pub record Sockets : Type 1 where
  pub Conn : Type 0
  pub read_message : Conn → Conn × Frame
  pub write_message : Bytes → Conn → Conn × Option Error
  pub close_conn : Conn → Conn × Option Error
  pub is_unexpected_close_error : Error → List ℕ → Bool

-- `ErrClosed`, and every other error by its text, without the detail that is only logged.
pub data WsError : Type 0 where
  err_closed : WsError
  other : String → WsError

abbrev pub as_ws_error : Option Error → Option WsError
as_ws_error none = none
as_ws_error (some err) = some (other err)

pub data Received : Type 0 where
  received : JsonRpcMsg → Received
  lost : WsError → Received

-- `on_disconnect` tells whether the callback is set; it is always the broker's `onClientDisconnect`.
pub record JsonRpcWsClient (Conn : Type 0) : Type 0 where
  pub conn : Conn
  pub closed : Bool
  pub on_disconnect : Bool

unfoldable pub new_json_rpc_ws_client : {Conn : Type 0} → Conn → JsonRpcWsClient Conn
new_json_rpc_ws_client conn = record { conn = conn; closed = false; on_disconnect = false }

unfoldable pub set_on_disconnect_callback :
    {Conn : Type 0} → JsonRpcWsClient Conn → JsonRpcWsClient Conn
set_on_disconnect_callback c = record c { on_disconnect = true }

-- A nil client counts as closed.
unfoldable pub is_closed : {Conn : Type 0} → Option (JsonRpcWsClient Conn) → Bool
is_closed none = true
is_closed (some c) = c.closed

module _ (net : Sockets) (codec : Codec) where
  unfoldable pub send_msg :
      JsonRpcMsg → JsonRpcWsClient net.Conn → JsonRpcWsClient net.Conn × Option WsError
  send_msg msg c = if c.closed then (c, some err_closed) else elim (codec.marshal_one msg) [
    | none ↦ (c, some (other "error encoding msg"))
    | some b ↦
        let (conn', err) = net.write_message b c.conn in
        (record c { conn = conn' }, as_ws_error err)
  ]

  -- The callback runs on the state of the program.
  unfoldable pub close :
      {W : Type 0}
      → (W → Result W)
      → JsonRpcWsClient net.Conn
      → W
      → Result (JsonRpcWsClient net.Conn × W × Option WsError)
  close callback c w = if c.closed then ok (c, w, some err_closed) else (do
    w' ← if c.on_disconnect then callback w else ok w
    let (conn', err) = net.close_conn c.conn
    elim err [
      | some e ↦ ok (record c { conn = conn' }, w', some (other e))
      | none ↦ ok (record c { conn = conn'; closed = true }, w', none)
    ])

  -- What the bytes of a frame say.
  unfoldable pub decode_frame : Bytes → Received
  decode_frame [] = lost (other "received empty json rpc message")
  decode_frame (b ∷ bs) =
      let (m, ms, err) = parse_json_rpc_message codec (b ∷ bs) in
      elim err [
        | some e ↦ lost (other (String.◌++◌ "error decoding msg: " e))
        | none ↦ elim m [ none ↦ lost (other "bad request") | some msg ↦ received msg ]
      ]

  -- The codes are those of a normal closure, going away, an abnormal closure and no status.
  unfoldable pub receive_msg :
      {W : Type 0}
      → (W → Result W)
      → JsonRpcWsClient net.Conn
      → W
      → Result (JsonRpcWsClient net.Conn × W × Received)
  unfolding close decode_frame
  receive_msg callback c w =
      if c.closed
      then ok (c, w, lost err_closed)
      else (let (conn', frame) = net.read_message c.conn in
          let c' = record c { conn = conn' } in
          elim frame [
            | message bytes ↦ ok (c', w, decode_frame bytes)
            | broken e ↦
                if net.is_unexpected_close_error e (1000 ∷ 1001 ∷ 1006 ∷ 1005 ∷ [])
                then ok (c', w, lost (other e))
                else (do (c2, w', err) ← close callback c' w; ok (c2, w', lost err_closed))
            | repeated ↦ panic repeated_read
          ])
