-- ===== src/JsonRpc/Msg/Decode.antt =====
-- `UnmarshalJSON` of jsonrpc_utils.go, by which the codec decodes a message. The decoding of the other
-- fields by github.com/json-iterator/go, `strconv.Atoi` and `strconv.Unquote` are parameters.
use cosmoguard.Prelude.{ℕ, [], ◌∷◌, String, Option, none, some}
use cosmoguard.Go.{Value, nil, int, str, Bytes}
use cosmoguard.Cache.{Error}
use cosmoguard.JsonRpc.Msg.{JsonRpcMsg, Codec}

-- `decode` fills the fields of a fresh message and gives the bytes of the id, which may be none.
pub record RawJson : Type 0 where
  pub decode : Bytes → JsonRpcMsg × Bytes × Option Error
  pub atoi : Bytes → Option ℕ
  pub unquote : Bytes → String × Option Error

module _ (raw : RawJson) where
  -- The id: a number if its bytes are one, or else what `Unquote` returns, beside its error.
  unfoldable pub unmarshal_id : Bytes → Value × Option Error
  unmarshal_id [] = (nil, none)
  unmarshal_id (b ∷ bs) = elim (raw.atoi (b ∷ bs)) [
    | some i ↦ (int i, none)
    | none ↦ let (s, err) = raw.unquote (b ∷ bs) in (str s, err)
  ]

  -- The id of a fresh message is nil, and stays so after an error.
  unfoldable pub unmarshal_json : Bytes → JsonRpcMsg × Option Error
  unfolding unmarshal_id
  unmarshal_json b =
      let (j, id_bytes, err) = raw.decode b in
      elim err [
        | some e ↦ (record j { id = nil }, some e)
        | none ↦ let (id, e) = unmarshal_id id_bytes in (record j { id = id }, e)
      ]

  -- A codec that decodes messages so.
  abbrev pub with_unmarshal_json : Codec → Codec
  with_unmarshal_json c = record c { unmarshal_one = unmarshal_json }
