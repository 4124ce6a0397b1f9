-- ===== src/Ws/Pool.antt =====
-- `UpstreamPool` of ws_upstream_pool.go: the connections to upstream and the subscriptions that they
-- hold. The mutex is left out: each call is one step.
pub mod Laws
pub mod Maps
use cosmoguard.Prelude.{
  ℕ, zero, suc, ◌+◌, ◌-◌, ◌%◌, ◌^◌, List, [], ◌∷◌, String, Option, none, some, lookup, insert,
  remove, length, get_elem?, nat_eq, string_eq, ◌==◌, if◌then◌else◌,
}
use cosmoguard.Go.{
  Result, ok, panic, ◌>>=◌, divide_by_zero, index_out_of_range, makeslice_len_out_of_range, int_lt,
}
use cosmoguard.JsonRpc.Msg.{JsonRpcMsg}
use cosmoguard.Ws.{Attempt, got, failed}

-- `UpstreamConnManager`: each call may change the connection.
pub record UpstreamConnManager : Type 1 where
  pub Conn : Type 0
  pub make_request : JsonRpcMsg → Conn → Conn × Attempt JsonRpcMsg
  pub subscribe : String → Conn → Conn × Attempt String
  pub unsubscribe : String → Conn → Conn × Option String

-- `connIdx` is a `uint32`; a connection is its index.
pub record UpstreamPool (Conn : Type 0) : Type 0 where
  pub conn : List Conn
  pub conn_idx : ℕ
  pub subscription_conn : List (String × ℕ)
  pub subscription_id : List (String × String)
  pub subscription_param : List (String × String)

-- `p.conn[i] = c`.
abbrev pub set_at : {A : Type 0} → ℕ → A → List A → List A
set_at i c [] = []
set_at zero c (x ∷ xs) = c ∷ xs
set_at (suc i) c (x ∷ xs) = x ∷ set_at i c xs

-- `p.conn[(int(n)-1)%len(p.conn)]`, by `n` and the length: the remainder of `-1` is `-1`, but 0 by 1.
unfoldable pub pick : ℕ → ℕ → Result ℕ
pick n zero = panic divide_by_zero
pick zero (suc zero) = ok 0
pick zero (suc (suc len)) = panic index_out_of_range
pick (suc n) (suc len) = ok (n % suc len)

-- `p.subscriptionParam[id]` is the empty text for an unknown id.
abbrev pub or_empty : Option String → String
or_empty none = ""
or_empty (some param) = param

-- `make([]UpstreamConnManager, n)` with its loop, over the 64-bit pattern of `n`.
unfoldable pub connections : {Conn : Type 0} → Conn → ℕ → List Conn
connections c zero = []
connections c (suc n) = c ∷ connections c n

-- `constructor` makes a connection to a host and a path.
unfoldable pub new_upstream_pool :
    {Conn : Type 0} → (String → String → Conn) → String → String → ℕ → Result (UpstreamPool Conn)
unfolding connections
new_upstream_pool constructor backend path n =
    if int_lt n 0
    then panic makeslice_len_out_of_range
    else ok (record {
      conn = connections (constructor backend path) n;
      conn_idx = 0;
      subscription_conn = [];
      subscription_id = [];
      subscription_param = [];
    })

module _ (up : UpstreamConnManager) where
  -- The counter wraps round at 32 bits.
  unfoldable pub get_connection : UpstreamPool up.Conn → Result (UpstreamPool up.Conn × ℕ)
  get_connection p =
      let n = (p.conn_idx + 1) % 2 ^ 32 in
      do i ← pick n (length p.conn); ok (record p { conn_idx = n }, i)

  -- A call of the connection at an index.
  abbrev pub at :
      {A : Type 0}
      → ℕ
      → (up.Conn → up.Conn × A)
      → UpstreamPool up.Conn
      → Result (UpstreamPool up.Conn × A)
  at i f p = elim (get_elem? p.conn i) [
    | none ↦ panic index_out_of_range
    | some c ↦ let (c', a) = f c in ok (record p { conn = set_at i c' p.conn }, a)
  ]

  unfoldable pub make_request :
      JsonRpcMsg → UpstreamPool up.Conn → Result (UpstreamPool up.Conn × Attempt JsonRpcMsg)
  make_request msg p = do (p', i) ← get_connection p; at i (up.make_request msg) p'

  -- What `Subscribe` records of the connection's answer.
  unfoldable pub record_subscription :
      String → ℕ → Attempt String → UpstreamPool up.Conn → UpstreamPool up.Conn × Attempt String
  record_subscription param i (failed err) p = (p, failed err)
  record_subscription param i (got id) p = (
    record p {
      subscription_param = insert id param p.subscription_param;
      subscription_id = insert param id p.subscription_id;
      subscription_conn = insert id i p.subscription_conn;
    },
    got id,
  )

  unfoldable pub subscribe_new :
      String → UpstreamPool up.Conn → Result (UpstreamPool up.Conn × Attempt String)
  unfolding record_subscription
  subscribe_new param p = do
    (p1, i) ← get_connection p
    (p2, answer) ← at i (up.subscribe param) p1
    ok (record_subscription param i answer p2)

  unfoldable pub subscribe :
      String → UpstreamPool up.Conn → Result (UpstreamPool up.Conn × Attempt String)
  subscribe param p = elim (lookup param p.subscription_id) [
    | some id ↦ ok (p, got id)
    | none ↦ subscribe_new param p
  ]

  -- What `Unsubscribe` forgets, unless the connection returns an error.
  unfoldable pub forget :
      String → Option String → UpstreamPool up.Conn → UpstreamPool up.Conn × Option String
  forget id (some err) p = (p, some err)
  forget id none p = (
    record p {
      subscription_conn = remove id p.subscription_conn;
      subscription_id = remove (or_empty (lookup id p.subscription_param)) p.subscription_id;
      subscription_param = remove id p.subscription_param;
    },
    none,
  )

  unfoldable pub unsubscribe :
      String → UpstreamPool up.Conn → Result (UpstreamPool up.Conn × Option String)
  unfolding forget
  unsubscribe id p = elim (lookup id p.subscription_conn) [
    | none ↦ ok (p, some "connection for subscription not found")
    | some i ↦ do (p', err) ← at i (up.unsubscribe id) p; ok (forget id err p')
  ]
