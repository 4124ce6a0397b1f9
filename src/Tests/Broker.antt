-- ===== src/Tests/Broker.antt =====
-- The theorems on the websocket proxy and the broker at a concrete state.
use cosmoguard.Prelude.{
  ℕ, ◌≡◌, ◌⊎◌, refl, [], ◌∷◌, true, ◌&&◌, String, Option, none, some, lookup, insert, remove,
  nat_eq, string_eq, ◌==◌, List, Any, All,
}
use cosmoguard.Go.{index, ok, str, int, slice, item, empty}
use cosmoguard.JsonRpc.Msg.{JsonRpcMsg, clone_with_id}
use cosmoguard.Ws.{got}
use cosmoguard.Ws.Utils.{get_subscription_param, is_eth_subscription_id}
use cosmoguard.Ws.Subscriptions
use cosmoguard.Ws.Subscriptions.{SubscriptionManager, new_subscription_manager, client_subscribed}
use cosmoguard.Ws.Pool
use cosmoguard.Ws.Pool.{UpstreamPool}
use cosmoguard.Ws.Broker
use cosmoguard.Ws.Broker.{Broker, Delivery}
use cosmoguard.Ws.Broker.Consistent.{IsConsistent}
use cosmoguard.Ws.Broker.Joining.{Added, Joins, GivesFresh, add_subscription-Added}
use cosmoguard.Ws.Broker.Leaving.{
  Leaves, remove_subscription-Unsubscribed, remove_all_subscriptions-Leaves,
}
use cosmoguard.Ws.Broker.Broadcast.{add_subscription-on_subscription_message}
use cosmoguard.Tests.Samples.{upstream, message}

abbrev connection : UpstreamPool ℕ
connection = record {
  conn = 0 ∷ [];
  conn_idx = 0;
  subscription_conn = [];
  subscription_id = [];
  subscription_param = [];
}

abbrev pub idle : Broker ℕ
idle = record { pool = connection; sm = new_subscription_manager }

pub idle-IsConsistent : IsConsistent idle.pool idle.sm
unfolding lookup
idle-IsConsistent = record {
  valid = record { agree = λ q j. ((λ e. absurd (cc)), λ e. absurd (cc)); kept = λ j. refl };
  ids = λ q. refl;
  params = λ j. refl;
  held = λ j. refl;
}

pub idle-GivesFresh : GivesFresh upstream idle
unfolding lookup
idle-GivesFresh param id q n e = refl

abbrev pub heads_request : String → JsonRpcMsg
heads_request method = record (message method 7) { params = slice (item (str "heads") empty) }

-- Client 3 is on the subscription `heads`.
abbrev pub busy : Broker ℕ
busy = record {
  pool = record {
    conn = 1 ∷ [];
    conn_idx = 1;
    subscription_conn = ("heads", 0) ∷ [];
    subscription_id = ("heads", "heads") ∷ [];
    subscription_param = ("heads", "heads") ∷ [];
  };
  sm = record {
    param_to_id = ("heads", "heads") ∷ [];
    id_to_param = ("heads", "heads") ∷ [];
    client_subscriptions = ("heads", (3, int 7) ∷ []) ∷ [];
  };
}

joined :
    Broker.add_subscription upstream 3 (heads_request "subscribe") idle ≡ ok (busy, got "heads")
unfolding Broker.add_subscription Broker.subscribe_to Broker.open_subscription Broker.join
    get_subscription_param Pool.subscribe Pool.subscribe_new Pool.get_connection Pool.pick
    Pool.record_subscription Subscriptions.add_subscription Subscriptions.subscribe_client
    Subscriptions.get_subscription_id lookup insert index
joined = refl

add_subscription-Added_example : Added idle 3 (int 7) (busy, got "heads")
add_subscription-Added_example =
    add_subscription-Added upstream 3 (heads_request "subscribe") idle (busy, got "heads")
      idle-IsConsistent idle-GivesFresh joined

pub busy-Joins : Joins idle busy 3 (int 7) "heads"
busy-Joins =
    add_subscription-Added upstream 3 (heads_request "subscribe") idle (busy, got "heads")
      idle-IsConsistent idle-GivesFresh joined

abbrev note : JsonRpcMsg
note = record (message "" 0) { id = str "heads" }

add_subscription-on_subscription_message_example :
    (ds : List Delivery) × (Broker.on_subscription_message upstream note busy ≡ ok ds)
    × Any (λ d. d ≡ record { client = 3; msg = clone_with_id note (int 7) }) ds
    × All (λ d. client_subscribed "heads" d.client busy.sm ≡ true) ds
add_subscription-on_subscription_message_example =
    add_subscription-on_subscription_message upstream 3 (heads_request "subscribe") note idle busy
      "heads" idle-IsConsistent idle-GivesFresh joined refl

-- Nobody is left, and the connection was asked once more.
abbrev pub left : Broker ℕ
left = record {
  pool = record connection { conn = 2 ∷ []; conn_idx = 1 };
  sm = new_subscription_manager;
}

unsubscribed :
    Broker.remove_subscription upstream 3 (heads_request "unsubscribe") busy ≡ ok (left, none)
unfolding Broker.remove_subscription Broker.unsubscribe_from Broker.subscription_of Broker.leave
    Broker.drop_empty Broker.forget get_subscription_param is_eth_subscription_id Pool.unsubscribe
    Pool.forget Subscriptions.remove_subscription Subscriptions.unsubscribe_client
    Subscriptions.get_subscription_id Subscriptions.client_subscribed
    Subscriptions.subscription_empty lookup insert remove index
unsubscribed = refl

remove_subscription-Unsubscribed_example :
    ((err : String) × (◌≡◌ {A = Broker ℕ × Option String} (left, none) (busy, some err)))
    ⊎ ((id : String) × (client_subscribed id 3 busy.sm ≡ true)
        × Leaves busy left (λ j k. id == j && 3 == k))
remove_subscription-Unsubscribed_example =
    remove_subscription-Unsubscribed upstream 3 (heads_request "unsubscribe") busy (left, none)
      busy-Joins.consistent unsubscribed

left_all : Broker.remove_all_subscriptions upstream 3 busy ≡ ok (left, none)
unfolding Broker.remove_all_subscriptions Broker.leave_all Broker.leave Broker.drop_empty
    Broker.forget Pool.unsubscribe Pool.forget Subscriptions.remove_subscription
    Subscriptions.unsubscribe_client Subscriptions.get_subscriptions Subscriptions.subscriptions_of
    Subscriptions.subscription_empty lookup insert remove
left_all = refl

remove_all_subscriptions-Leaves_example :
    (◌≡◌ {A = Option String} none none × Leaves busy left (λ j c. 3 == c))
    ⊎ ((err : String) × ◌≡◌ {A = Option String} none (some err) × IsConsistent left.pool left.sm)
remove_all_subscriptions-Leaves_example =
    remove_all_subscriptions-Leaves upstream 3 busy (left, none) busy-Joins.consistent left_all
