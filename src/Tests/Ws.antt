-- ===== src/Tests/Ws.antt =====
-- The theorems on subscriptions, the pool of connections and the ids at concrete states.
use cosmoguard.Prelude.{
  ℕ, ◌-◌, ◌%◌, ◌^◌, ◌≡◌, refl, ◌<◌, [], ◌∷◌, true, false, String, some, lookup, insert, arith,
  nat_eq, string_eq, ◌==◌, if◌then◌else◌,
}
use cosmoguard.Go.{ok, panic, index_out_of_range, itoa}
use cosmoguard.Util.UniqueId.{UniqueId, is_free, id, release}
use cosmoguard.Util.UniqueId.Laws.{id-fresh}
use cosmoguard.Ws.{got}
use cosmoguard.Ws.Subscriptions.{SubscriptionManager, new_subscription_manager, add_subscription}
use cosmoguard.Ws.Subscriptions.Laws.{IsValid, add_subscription-IsValid}
use cosmoguard.Ws.Pool.{
  UpstreamPool, pick, get_connection, make_request, record_subscription, subscribe_new, subscribe,
}
use cosmoguard.Ws.Pool.Laws.{get_connection-turn, get_connection-wraps}
use cosmoguard.Tests.Samples.{upstream, message}

empty-IsValid : IsValid new_subscription_manager
unfolding lookup
empty-IsValid = record { agree = λ q j. ((λ e. absurd (cc)), λ e. absurd (cc)); kept = λ j. refl }

-- A manager with the subscription `0x1` to new heads.
abbrev heads : SubscriptionManager
heads = add_subscription "newHeads" "0x1" new_subscription_manager

heads-IsValid : IsValid heads
heads-IsValid =
    add_subscription-IsValid "newHeads" "0x1" new_subscription_manager empty-IsValid
      (unfold lookup in refl) (unfold lookup in refl)

heads_known : lookup "0x1" heads.id_to_param ≡ some "newHeads"
unfolding add_subscription lookup insert
heads_known = refl

abbrev pool : ℕ → UpstreamPool ℕ
pool n = record {
  conn = 0 ∷ 0 ∷ 0 ∷ [];
  conn_idx = n;
  subscription_conn = [];
  subscription_id = [];
  subscription_param = [];
}

get_connection-turn_example : (get_connection upstream (pool 4) ≡ ok (pool 5, 4 % 3)) × (4 % 3 < 3)
get_connection-turn_example = get_connection-turn upstream (pool 4) (omega arith) (omega arith)

get_connection-wraps_example :
    (get_connection upstream (pool (2 ^ 32 - 1)) ≡ panic index_out_of_range)
    × (make_request upstream (message "status" 7) (pool (2 ^ 32 - 1)) ≡ panic index_out_of_range)
get_connection-wraps_example =
    get_connection-wraps upstream (pool (2 ^ 32 - 1)) (message "status" 7) refl (omega arith)

abbrev subscribed : UpstreamPool ℕ
subscribed = record {
  conn = 1 ∷ 0 ∷ 0 ∷ [];
  conn_idx = 1;
  subscription_conn = ("newHeads", 0) ∷ [];
  subscription_id = ("newHeads", "newHeads") ∷ [];
  subscription_param = ("newHeads", "newHeads") ∷ [];
}

subscribes : subscribe upstream "newHeads" (pool 0) ≡ ok (subscribed, got "newHeads")
unfolding subscribe subscribe_new record_subscription get_connection pick lookup insert
subscribes = refl

-- The id 5 is in use, and 6 is drawn next.
abbrev five : UniqueId
five = ("5", true) ∷ []

abbrev five_six : UniqueId
five_six = ("5", true) ∷ ("6", true) ∷ []

six_drawn : id (5 ∷ 6 ∷ []) five ≡ some (five_six, "6")
unfolding id lookup insert itoa
six_drawn = refl

id-fresh_example :
    (is_free (lookup "6" five) ≡ true)
    × (is_free (lookup "6" five_six) ≡ false)
    × (is_free (lookup "6" (release "6" five_six)) ≡ true)
    × ((j : String)
        → lookup j five_six ≡ (if ◌==◌ {A = String} "6" j then some true else lookup j five))
id-fresh_example = id-fresh (5 ∷ 6 ∷ []) five five_six "6" six_drawn

six_free : is_free (lookup (itoa 6) five) ≡ true
unfolding lookup itoa
six_free = refl
