-- ===== src/Ws/Subscriptions.antt =====
-- `SubscriptionManager` of ws_subscriptions.go: which parameter each subscription of upstream stands
-- for, and which clients share it. A client is the address of its connection.
pub mod Laws
use cosmoguard.Prelude.{
  ℕ, Bool, List, [], ◌∷◌, String, Option, none, some, lookup, insert, remove, is_some, is_nil,
  nat_eq, string_eq, if◌then◌else◌,
}
use cosmoguard.Go.{Result, ok, panic, nil_map_write, Value}

-- `map[*JsonRpcWsClient]interface{}`: the clients, each with its own id of the subscription.
abbrev pub Clients : Type 0
Clients = List (ℕ × Value)

pub record SubscriptionManager : Type 0 where
  pub param_to_id : List (String × String)
  pub id_to_param : List (String × String)
  pub client_subscriptions : List (String × Clients)

abbrev pub new_subscription_manager : SubscriptionManager
new_subscription_manager = record { param_to_id = []; id_to_param = []; client_subscriptions = [] }

unfoldable pub add_subscription : String → String → SubscriptionManager → SubscriptionManager
add_subscription param id s = record {
  param_to_id = insert param id s.param_to_id;
  id_to_param = insert id param s.id_to_param;
  client_subscriptions = insert id [] s.client_subscriptions;
}

-- `s.idToParam[id]` is the empty text for an unknown id.
abbrev pub or_empty : Option String → String
or_empty none = ""
or_empty (some param) = param

unfoldable pub remove_subscription : String → SubscriptionManager → SubscriptionManager
remove_subscription id s = record {
  param_to_id = remove (or_empty (lookup id s.id_to_param)) s.param_to_id;
  id_to_param = remove id s.id_to_param;
  client_subscriptions = remove id s.client_subscriptions;
}

-- `s.clientSubscriptions[id]`: an unknown id has the nil map, which reads as the empty one.
abbrev pub or_nil_map : Option Clients → Clients
or_nil_map none = []
or_nil_map (some clients) = clients

unfoldable pub subscription_empty : String → SubscriptionManager → Bool
subscription_empty id s = is_nil (or_nil_map (lookup id s.client_subscriptions))

-- A write to the nil map panics.
unfoldable pub subscribe_client :
    String → ℕ → Value → SubscriptionManager → Result SubscriptionManager
subscribe_client id client client_sub_id s = elim (lookup id s.client_subscriptions) [
  | none ↦ panic nil_map_write
  | some clients ↦ ok (record s {
    client_subscriptions = insert id (insert client client_sub_id clients) s.client_subscriptions;
  })
]

-- To delete from the nil map does nothing.
unfoldable pub unsubscribe_client : String → ℕ → SubscriptionManager → SubscriptionManager
unsubscribe_client id client s = elim (lookup id s.client_subscriptions) [
  | none ↦ s
  | some clients ↦ record s {
    client_subscriptions = insert id (remove client clients) s.client_subscriptions;
  }
]

unfoldable pub client_subscribed : String → ℕ → SubscriptionManager → Bool
client_subscribed id client s =
    is_some (lookup client (or_nil_map (lookup id s.client_subscriptions)))

-- The loop of `GetSubscriptions`; Go leaves the order of the ids open.
unfoldable pub subscriptions_of : ℕ → List (String × Clients) → List String
subscriptions_of client [] = []
subscriptions_of client ((id, m) ∷ rest) =
    let ids = subscriptions_of client rest in if is_some (lookup client m) then id ∷ ids else ids

unfoldable pub get_subscriptions : ℕ → SubscriptionManager → List String
unfolding subscriptions_of
get_subscriptions client s = subscriptions_of client s.client_subscriptions

unfoldable pub get_subscription_id : String → SubscriptionManager → Option String
get_subscription_id param s = lookup param s.param_to_id

unfoldable pub get_subscription_param : String → SubscriptionManager → Option String
get_subscription_param id s = lookup id s.id_to_param

unfoldable pub get_subscription_clients : String → SubscriptionManager → Clients
get_subscription_clients id s = or_nil_map (lookup id s.client_subscriptions)
