-- ===== src/JsonRpc/Msg.antt =====
-- `JsonRpcMsg` of jsonrpc_utils.go, and the messages that the program makes itself.
pub mod Decode
use cosmoguard.Prelude.{
  ℕ, ◌++◌, List, [], ◌∷◌, String, Option, none, some, if◌then◌else◌, nat_eq, ◌==◌,
}
use cosmoguard.Go.{Value, nil, dict, end, get, as_string, Bytes, utf8}
use cosmoguard.Cache.{Error}

-- The field `Data` is `payload` here.
pub record JsonRpcError : Type 0 where
  pub code : ℕ
  pub message : String
  pub payload : Value

pub record JsonRpcMsg : Type 0 where
  pub version : String
  pub id : Value
  pub method : String
  pub params : Value
  pub result : Value
  pub error : Option JsonRpcError

unfoldable pub clone_error : Option JsonRpcError → Option JsonRpcError
clone_error none = none
clone_error (some e) = some (record { code = e.code; message = e.message; payload = e.payload })

unfoldable pub clone_with_id : JsonRpcMsg → Value → JsonRpcMsg
unfolding clone_error
clone_with_id j id = record {
  version = j.version;
  id = id;
  method = j.method;
  params = j.params;
  result = j.result;
  error = clone_error j.error;
}

unfoldable pub clone : JsonRpcMsg → JsonRpcMsg
unfolding clone_error
clone j = record {
  version = j.version;
  id = j.id;
  method = j.method;
  params = j.params;
  result = j.result;
  error = clone_error j.error;
}

-- github.com/json-iterator/go, with the program's `UnmarshalJSON`, and segmentio/fasthash. Decoding
-- fills what it can, and returns an error beside it; an element of an array may be `null`.
pub record Codec : Type 0 where
  pub unmarshal_one : Bytes → JsonRpcMsg × Option Error
  pub unmarshal_many : Bytes → List (Option JsonRpcMsg) × Option Error
  pub marshal_one : JsonRpcMsg → Option Bytes
  pub marshal_many : List JsonRpcMsg → Option Bytes
  pub marshal_value : Value → Option Bytes
  pub fnv1a : Bytes → ℕ

module _ (c : Codec) where
  -- `Hash`: the digest of the method and the encoded parameters, joined end to end.
  unfoldable pub hash : JsonRpcMsg → ℕ
  hash j = elim (c.marshal_value j.params) [ none ↦ 0 | some b ↦ c.fnv1a (utf8 j.method ++ b) ]

  -- A body that begins with a bracket is a batch; the error is returned third.
  unfoldable pub parse_json_rpc_message :
      Bytes → Option JsonRpcMsg × List (Option JsonRpcMsg) × Option Error
  parse_json_rpc_message [] = let (m, err) = c.unmarshal_one [] in (some m, [], err)
  parse_json_rpc_message (b ∷ bs) =
      if b == b'['
      then (let (ms, err) = c.unmarshal_many (b ∷ bs) in (none, ms, err))
      else (let (m, err) = c.unmarshal_one (b ∷ bs) in (some m, [], err))

path_of : Value → String
path_of (dict m) = elim (get "path" m) [
  | none ↦ ""
  | some v ↦ elim (as_string v) [ none ↦ "" | some s ↦ s ]
]
path_of _ = ""

-- `MaybeGetPath`.
unfoldable pub maybe_get_path : JsonRpcMsg → String
unfolding path_of
maybe_get_path j = path_of j.params

-- The message with no method, no parameters, no result and no error.
abbrev pub blank : Value → JsonRpcMsg
blank id = record {
  version = "2.0";
  id = id;
  method = "";
  params = nil;
  result = nil;
  error = none;
}

unfoldable pub error_response : JsonRpcMsg → ℕ → String → Value → JsonRpcMsg
error_response req code message payload = record (blank req.id) {
  error = some (record { code = code; message = message; payload = payload });
}

unfoldable pub unauthorized_response : JsonRpcMsg → JsonRpcMsg
unauthorized_response req = record (blank req.id) {
  error = some (record { code = 401; message = "unauthorized access"; payload = nil });
}

unfoldable pub with_result : JsonRpcMsg → Value → JsonRpcMsg
with_result req result = record (blank req.id) { result = result }

-- The result is an empty map.
unfoldable pub empty_result : JsonRpcMsg → JsonRpcMsg
empty_result req = record (blank req.id) { result = dict end }
