-- ===== src/Ws/Pool/Maps.antt =====
-- What the calls of the pool do to its maps of subscriptions.
use cosmoguard.Prelude.{
  ℕ, ◌+◌, ◌%◌, ◌^◌, length, ◌≡◌, refl, ap, ◌∙◌, inl, inr, String, Option, none, some, lookup,
  insert, remove, string_eq, get_elem?, Option-cases, subst,
}
use cosmoguard.Go.{ok, >>=-eq-ok, ok-injective}
use cosmoguard.Ws.{Attempt, got, failed}
use cosmoguard.Ws.Pool.{
  UpstreamConnManager, UpstreamPool, pick, get_connection, at, record_subscription, subscribe_new,
  subscribe, forget, unsubscribe, or_empty, make_request,
}
use cosmoguard.JsonRpc.Msg.{JsonRpcMsg}

pub record SameMaps {Conn : Type 0} (p q : UpstreamPool Conn) : Type 0 where
  pub conns : q.subscription_conn ≡ p.subscription_conn
  pub ids : q.subscription_id ≡ p.subscription_id
  pub params : q.subscription_param ≡ p.subscription_param

SameMaps-trans :
    {Conn : Type 0} {p q r : UpstreamPool Conn} → SameMaps p q → SameMaps q r → SameMaps p r
SameMaps-trans s t = record {
  conns = t.conns ∙ s.conns;
  ids = t.ids ∙ s.ids;
  params = t.params ∙ s.params;
}

module _ (up : UpstreamConnManager) where
  get_connection-SameMaps :
      (p : UpstreamPool up.Conn) {r : UpstreamPool up.Conn × ℕ}
      → get_connection up p ≡ ok r
      → SameMaps p r.0
  unfolding get_connection
  get_connection-SameMaps p e =
      let (i, picked, e1) = >>=-eq-ok (pick ((p.conn_idx + 1) % 2 ^ 32) (length p.conn)) _ e in
      subst (λ x. SameMaps p x.0) (ok-injective e1)
        (record { conns = refl; ids = refl; params = refl })

  at-SameMaps :
      {A : Type 0} (i : ℕ) (f : up.Conn → up.Conn × A) (p : UpstreamPool up.Conn)
      {r : UpstreamPool up.Conn × A}
      → at up i f p ≡ ok r
      → SameMaps p r.0
  at-SameMaps i f p {r} e = elim (Option-cases (get_elem? p.conn i)) [
    | inl n ↦ absurd (let h = rw (n, at) at e in cc)
    | inr (c, s) ↦
        subst (λ x. SameMaps p x.0) (ok-injective (rw (s, at) at e))
          (record { conns = refl; ids = refl; params = refl })
  ]

  pub make_request-SameMaps :
      (msg : JsonRpcMsg) (p : UpstreamPool up.Conn) {r : UpstreamPool up.Conn × Attempt JsonRpcMsg}
      → make_request up msg p ≡ ok r
      → SameMaps p r.0
  unfolding make_request
  make_request-SameMaps msg p e =
      let (a, picked, e1) = >>=-eq-ok (get_connection up p) _ e in
      SameMaps-trans (get_connection-SameMaps p picked) (at-SameMaps a.1 _ a.0 e1)

  -- The pool after an answer of upstream to a new subscription.
  pub record Opened (param : String) (p q : UpstreamPool up.Conn) (id : String) : Type 0 where
    pub conn : ℕ
    pub conns : q.subscription_conn ≡ insert id conn p.subscription_conn
    pub ids : q.subscription_id ≡ insert param id p.subscription_id
    pub params : q.subscription_param ≡ insert id param p.subscription_param

  abbrev pub Answered :
      String → UpstreamPool up.Conn → UpstreamPool up.Conn × Attempt String → Type 0
  Answered param p (q, failed err) = SameMaps p q
  Answered param p (q, got id) = Opened param p q id

  recorded :
      (param : String) (i : ℕ) (answer : Attempt String) (p q : UpstreamPool up.Conn)
      → SameMaps p q
      → Answered param p (record_subscription up param i answer q)
  unfolding record_subscription
  recorded param i (failed err) p q s = s
  recorded param i (got id) p q s = record {
    conn = i;
    conns = ap (insert id i) s.conns;
    ids = ap (insert param id) s.ids;
    params = ap (insert id param) s.params;
  }

  -- A parameter that is new to the pool.
  pub subscribe-Answered :
      (param : String) (p : UpstreamPool up.Conn) (r : UpstreamPool up.Conn × Attempt String)
      → lookup param p.subscription_id ≡ none
      → subscribe up param p ≡ ok r
      → Answered param p r
  unfolding subscribe subscribe_new
  subscribe-Answered param p r new e =
      let (a, picked, e1) =
        >>=-eq-ok (get_connection up p) _ (rw (new, subscribe, subscribe_new) at e) in
      let (b, asked, e2) = >>=-eq-ok (at up a.1 (up.subscribe param) a.0) _ e1 in
      subst (Answered param p) (ok-injective e2) (
        recorded param a.1 b.1 p b.0
          (SameMaps-trans (get_connection-SameMaps p picked) (at-SameMaps a.1 _ a.0 asked)))

  -- The pool after `Unsubscribe`: an error keeps the maps, and leaves them in step.
  pub record Forgotten (id : String) (p q : UpstreamPool up.Conn) : Type 0 where
    pub known : (i : ℕ) × (lookup id p.subscription_conn ≡ some i)
    pub conns : q.subscription_conn ≡ remove id p.subscription_conn
    pub ids :
        q.subscription_id ≡ remove (or_empty (lookup id p.subscription_param)) p.subscription_id
    pub params : q.subscription_param ≡ remove id p.subscription_param

  abbrev pub Left : String → UpstreamPool up.Conn → UpstreamPool up.Conn × Option String → Type 0
  Left id p (q, some err) = SameMaps p q
  Left id p (q, none) = Forgotten id p q

  forgotten :
      (id : String) (i : ℕ) (err : Option String) (p q : UpstreamPool up.Conn)
      → lookup id p.subscription_conn ≡ some i
      → SameMaps p q
      → Left id p (forget up id err q)
  unfolding forget
  forgotten id i (some err) p q k s = s
  forgotten id i none p q k s = record {
    known = (i, k);
    conns = ap (remove id) s.conns;
    ids = rw (s.params, s.ids) refl;
    params = ap (remove id) s.params;
  }

  pub unsubscribe-Left :
      (id : String) (p : UpstreamPool up.Conn) (r : UpstreamPool up.Conn × Option String)
      → unsubscribe up id p ≡ ok r
      → Left id p r
  unfolding unsubscribe
  unsubscribe-Left id p r e = elim (Option-cases (lookup id p.subscription_conn)) [
    | inl n ↦
        subst (Left id p) (ok-injective (rw (n, unsubscribe) at e))
          (record { conns = refl; ids = refl; params = refl })
    | inr (i, k) ↦
        let (a, asked, e1) =
          >>=-eq-ok (at up i (up.unsubscribe id) p) _ (rw (k, unsubscribe) at e) in
        subst (Left id p) (ok-injective e1)
          (forgotten id i a.1 p a.0 k (at-SameMaps i (up.unsubscribe id) p asked))
  ]
