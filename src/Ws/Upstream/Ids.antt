-- ===== src/Ws/Upstream/Ids.antt =====
-- The ids of the messages of upstream: `UnmarshalJSON` of jsonrpc_utils.go, `ReceiveMsg` of
-- ws_jsonrpc_client.go, and `onUpstreamMessage` of the two managers.
use Prim.Native.String
use cosmoguard.Prelude.{
  ℕ, ◌≡◌, refl, sym, ap, [], ◌∷◌, String, Option, none, some, ◌⊎◌, inl, inr, Bool-cases,
  Option-cases, subst, nat_eq, ◌==◌,
}
use cosmoguard.Go.{Value, nil, itoa, Bytes}
use cosmoguard.Cache.{Error}
use cosmoguard.JsonRpc.Msg.{JsonRpcMsg, Codec, parse_json_rpc_message}
use cosmoguard.JsonRpc.Msg.Decode.{RawJson, unmarshal_id, unmarshal_json, with_unmarshal_json}
use cosmoguard.Ws.Client.{Sockets, other, Received, received, lost, decode_frame}
use cosmoguard.Ws.Upstream.{msg_id}

-- A message has no id, or one that `onUpstreamMessage` can look up.
abbrev pub HasUsableId : Value → Type 0
HasUsableId v = (v ≡ nil) ⊎ ((i : String) × (msg_id v ≡ some i))

module _ (raw : RawJson) where
  unmarshal_id-HasUsableId : (b : Bytes) → HasUsableId (unmarshal_id raw b).0
  unfolding unmarshal_id
  unmarshal_id-HasUsableId [] = inl refl
  unmarshal_id-HasUsableId (b ∷ bs) = elim (Option-cases (raw.atoi (b ∷ bs))) [
    | inl n ↦ rw (n, unmarshal_id) (inr (_, refl))
    | inr (i, e) ↦ rw (e, unmarshal_id) (inr (itoa i, refl))
  ]

  unmarshal_json-HasUsableId : (b : Bytes) → HasUsableId (unmarshal_json raw b).0.id
  unfolding unmarshal_json
  unmarshal_json-HasUsableId b = elim (Option-cases (raw.decode b).2) [
    | inr (err, e) ↦ rw (e, unmarshal_json) (inl refl)
    | inl n ↦ rw (n, unmarshal_json) (unmarshal_id-HasUsableId (raw.decode b).1)
  ]

received-injective : {m n : JsonRpcMsg} → ◌≡◌ {A = Received} (received m) (received n) → m ≡ n
received-injective e = cc

some-injective : {m n : JsonRpcMsg} → ◌≡◌ {A = Option JsonRpcMsg} (some m) (some n) → m ≡ n
some-injective e = cc

-- The end of `ReceiveMsg`, by the message, if it is not a batch, and the error.
decoded : Option JsonRpcMsg → Option Error → Received
decoded o err = elim err [
  | some e ↦ lost (other (String.◌++◌ "error decoding msg: " e))
  | none ↦ elim o [ none ↦ lost (other "bad request") | some m ↦ received m ]
]

decoded-received :
    (o : Option JsonRpcMsg) (err : Option Error) (m : JsonRpcMsg)
    → decoded o err ≡ received m
    → o ≡ some m
unfolding decoded
decoded-received o (some e) m h = absurd (cc)
decoded-received none none m h = absurd (cc)
decoded-received (some x) none m h = ap some (received-injective h)

module _ (raw : RawJson) (c : Codec) (net : Sockets) where
  abbrev codec : Codec
  codec = with_unmarshal_json raw c

  parsed_lem :
      (b : ℕ) (bs : Bytes) (m : JsonRpcMsg)
      → (parse_json_rpc_message codec (b ∷ bs)).0 ≡ some m
      → m ≡ (unmarshal_json raw (b ∷ bs)).0
  unfolding parse_json_rpc_message
  parsed_lem b bs m e = elim (Bool-cases (b == b'[')) [
    | inl batch ↦ absurd (let k = rw (batch, parse_json_rpc_message) at e in cc)
    | inr single ↦ sym (some-injective (rw (single, parse_json_rpc_message) at e))
  ]

  -- A message that a websocket receives has no id, or one that the managers of the connections to
  -- upstream can look up, whatever bytes came.
  pub decode_frame-HasUsableId :
      (b : Bytes) (m : JsonRpcMsg) → decode_frame net codec b ≡ received m → HasUsableId m.id
  unfolding decode_frame decoded
  decode_frame-HasUsableId [] m e = absurd (cc)
  decode_frame-HasUsableId (b ∷ bs) m e =
      let parsed = parse_json_rpc_message codec (b ∷ bs) in
      subst (λ (x : JsonRpcMsg). HasUsableId x.id)
        (sym (parsed_lem b bs m (decoded-received parsed.0 parsed.2 m e)))
        (unmarshal_json-HasUsableId raw (b ∷ bs))
