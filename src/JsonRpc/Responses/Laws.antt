-- ===== src/JsonRpc/Responses/Laws.antt =====
-- How the responses of upstream find their requests.
use cosmoguard.Prelude.{
  ℕ, suc, ◌≤◌, ◌≡◌, refl, List, [], ◌∷◌, true, Option, none, some, nat_eq, is_some, length, All,
  arith,
}
use cosmoguard.Go.{ok, ◌>>=◌}
use cosmoguard.JsonRpc.Msg.{JsonRpcMsg}
use cosmoguard.JsonRpc.Responses.{
  Ref, JsonRpcResponse, JsonRpcResponses, get_pending_requests, get_final, set_found, set,
}

-- The pointers of a batch are numbered in its order.
abbrev pub Ascending : ℕ → JsonRpcResponses → Type 0
Ascending n [] = Unit
Ascending n (r ∷ l) = (n ≤ r.request.addr) × Ascending (suc r.request.addr) l

-- The collection with the open responses filled in from a list, in order.
fill_one : Option JsonRpcMsg → JsonRpcResponse → List (Option JsonRpcMsg) → JsonRpcResponse
fill_one (some _) r ms = r
fill_one none r [] = r
fill_one none r (m ∷ ms) = record r { response = m }

fill_rest : Option JsonRpcMsg → List (Option JsonRpcMsg) → List (Option JsonRpcMsg)
fill_rest (some _) ms = ms
fill_rest none [] = []
fill_rest none (m ∷ ms) = ms

unfoldable pub fill : JsonRpcResponses → List (Option JsonRpcMsg) → JsonRpcResponses
unfolding fill_one fill_rest
fill [] ms = []
fill (r ∷ l) ms = fill_one r.response r ms ∷ fill l (fill_rest r.response ms)

Ascending-mono : (m n : ℕ) (l : JsonRpcResponses) → m ≤ n → Ascending n l → Ascending m l
Ascending-mono m n [] h a = tt
Ascending-mono m n (r ∷ l) h a = (omega arith, a.1)

pending-above :
    (n : ℕ) (l : JsonRpcResponses) → Ascending n l → All (λ q. n ≤ q.addr) (get_pending_requests l)
unfolding get_pending_requests
pending-above n [] a = tt
pending-above n (r ∷ l) a =
    let below = Ascending-mono n (suc r.request.addr) l (omega arith) a.1 in
    ground (arith, pending-above n l below)

-- An entry that is not asked for stays.
set-cons :
    (qs : List Ref) (ms : List (Option JsonRpcMsg)) (r : JsonRpcResponse) (l : JsonRpcResponses)
    → All (λ q. suc r.request.addr ≤ q.addr) qs
    → length ms ≡ length qs
    → set qs ms (r ∷ l) ≡ (set qs ms l >>= λ l'. ok (r ∷ l'))
unfolding set
set-cons [] ms r l a n = refl
set-cons (q ∷ qs) [] r l a n = absurd (omega arith)
set-cons (q ∷ qs) (m ∷ ms) r l a n =
    ground (arith, set-cons qs ms r (set_found q.addr m l) a.1 (omega arith))

set-fill_step :
    (r : JsonRpcResponse) (l : JsonRpcResponses) (o : Option JsonRpcMsg)
    (ms : List (Option JsonRpcMsg))
    → r.response ≡ o
    → Ascending (suc r.request.addr) l
    → length ms ≡ length (get_pending_requests (r ∷ l))
    → ((ms' : List (Option JsonRpcMsg))
        → length ms' ≡ length (get_pending_requests l)
        → set (get_pending_requests l) ms' l ≡ ok (fill l ms'))
    → set (get_pending_requests (r ∷ l)) ms (r ∷ l) ≡ ok (fill (r ∷ l) ms)
unfolding get_pending_requests fill set
set-fill_step r l (some m) ms e a n ih =
    let above = pending-above (suc r.request.addr) l a in
    let k : length ms ≡ length (get_pending_requests l) = ground arith in
    ground (arith, set-cons (get_pending_requests l) ms r l above k, ih ms k)
set-fill_step r l none [] e a n ih = absurd (ground arith)
set-fill_step r l none (m ∷ ms) e a n ih =
    let above = pending-above (suc r.request.addr) l a in
    let k : length ms ≡ length (get_pending_requests l) = ground arith in
    ground
      (arith, set-cons (get_pending_requests l) ms (record r { response = m }) l above k, ih ms k)

-- `Set` gives the responses of upstream to the open requests in order, and leaves the others.
pub set-fill :
    (n : ℕ) (l : JsonRpcResponses) (ms : List (Option JsonRpcMsg))
    → Ascending n l
    → length ms ≡ length (get_pending_requests l)
    → set (get_pending_requests l) ms l ≡ ok (fill l ms)
set-fill n [] [] a k = unfold get_pending_requests fill set in refl
set-fill n [] (m ∷ ms) a k = absurd (unfold get_pending_requests in omega arith)
set-fill n (r ∷ l) ms a k =
    set-fill_step r l r.response ms refl a.1 k (λ ms'. set-fill (suc r.request.addr) l ms' a.1)

-- Once upstream has answered all open requests, there is a message for each request.
pub length-get_final-fill :
    (l : JsonRpcResponses) (ms : List (Option JsonRpcMsg))
    → length ms ≡ length (get_pending_requests l)
    → All (λ m. is_some m ≡ true) ms
    → length (get_final (fill l ms)) ≡ length l
unfolding get_final fill get_pending_requests
length-get_final-fill [] ms k a = refl
length-get_final-fill (r ∷ l) [] k a = ground (arith, length-get_final-fill l [])
length-get_final-fill (r ∷ l) (m ∷ ms) k a =
    ground (arith, length-get_final-fill l ms, length-get_final-fill l (m ∷ ms))
