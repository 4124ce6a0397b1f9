-- ===== src/Tests/Ids.antt =====
-- The theorem on the ids of messages at a concrete frame: a request with the id 7.
use cosmoguard.Prelude.{◌≡◌, refl, [], ◌∷◌, none, some, is_nil, if◌then◌else◌}
use cosmoguard.Go.{int}
use cosmoguard.JsonRpc.Msg.{parse_json_rpc_message}
use cosmoguard.JsonRpc.Msg.Decode.{RawJson, unmarshal_json, unmarshal_id, with_unmarshal_json}
use cosmoguard.Ws.Client.{received, decode_frame}
use cosmoguard.Ws.Upstream.Ids.{HasUsableId, decode_frame-HasUsableId}
use cosmoguard.Tests.Samples.{codec, message}
use cosmoguard.Tests.Proxy.{sockets}

abbrev raw : RawJson
raw = record {
  decode = λ b. (message "status" 0, b, none);
  atoi = λ b. if is_nil b then none else some 7;
  unquote = λ b. ("", some "invalid syntax");
}

frame :
    decode_frame sockets (with_unmarshal_json raw codec) (55 ∷ []) ≡ received (message "status" 7)
unfolding decode_frame parse_json_rpc_message unmarshal_json unmarshal_id
frame = refl

decode_frame-HasUsableId_example : HasUsableId (int 7)
decode_frame-HasUsableId_example =
    decode_frame-HasUsableId raw codec sockets (55 ∷ []) (message "status" 7) frame
