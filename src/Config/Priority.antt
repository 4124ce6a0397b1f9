-- ===== src/Config/Priority.antt =====
-- The order of the rules of config.go by their priorities, and which of them decides.
use cosmoguard.Prelude.{
  ℕ, ◌≡◌, refl, sym, ap, ◌∙◌, ◌⊎◌, inl, inr, Bool, true, false, List, [], ◌∷◌, ◌++◌, map, All,
  arith, string_eq,
}
use mathlib.Core.List.{Perm}
use cosmoguard.Go.{Result, ok, panic, >>=-eq-ok, ok-injective, int_lt}
use cosmoguard.Rules.{RuleAction, allow, deny}
use cosmoguard.Policy.{Verdict, permit, refuse, View, verdict, default_verdict, Passes, Chosen}
use cosmoguard.Policy.Laws.{Outcome, verdict_cases}
use cosmoguard.Config.{ConfigDeps, compile_each, by_priority, prepare}

-- No later priority is below an earlier one.
abbrev pub Ascending : List ℕ → Type 0
Ascending [] = Unit
Ascending (p ∷ ps) = All (λ q. int_lt q p ≡ false) ps × Ascending ps

-- `sort.Slice` by a number: a reordering, in ascending order.
abbrev pub Sorts : ((R : Type 0) → (R → R → Bool) → List R → List R) → Type 1
Sorts sort =
    (R : Type 0) (key : R → ℕ) (rs : List R)
    → let out = sort R (λ a b. int_lt (key a) (key b)) rs in Ascending (map key out) × Perm out rs

compile_each-map :
    {R : Type 0} (key : R → ℕ) (compile : R → Result R)
    → ((r r' : R) → compile r ≡ ok r' → key r' ≡ key r)
    → (rs out : List R) → compile_each compile rs ≡ ok out
    → map key out ≡ map key rs
unfolding compile_each
compile_each-map key compile keeps [] out e = ap (map key) (sym (ok-injective e))
compile_each-map key compile keeps (r ∷ rs) out e =
    let (r', e1, e2) = >>=-eq-ok (compile r) _ e in
    let (rs', e3, e4) = >>=-eq-ok (compile_each compile rs) _ e2 in
    ap (map key) (sym (ok-injective e4)) ∙ λ i.
    keeps r r' e1 i ∷ compile_each-map key compile keeps rs rs' e3 i

int_lt_irrefl : (a : ℕ) → int_lt a a ≡ false
unfolding int_lt
int_lt_irrefl a = ground arith

module _ (d : ConfigDeps) (sorts : Sorts d.sort) where
  by_priority-Ascending :
      {R : Type 0} (key : R → ℕ) (rs : List R) → Ascending (map key (by_priority d key rs))
  unfolding by_priority
  by_priority-Ascending key [] = tt
  by_priority-Ascending {R} key (r ∷ rs) = (sorts R key (r ∷ rs)).0

  pub prepare-Ascending :
      {R : Type 0} (key : R → ℕ) (compile : R → Result R)
      → ((r r' : R) → compile r ≡ ok r' → key r' ≡ key r)
      → (rs out : List R) → prepare d key compile rs ≡ ok out
      → Ascending (map key out)
  unfolding prepare
  prepare-Ascending key compile keeps rs out e =
      rw (compile_each-map key compile keeps (by_priority d key rs) out e)
        (by_priority-Ascending key rs)

-- A rule that matches, and whose action has a meaning.
abbrev pub Acts : {R : Type 0} → View R → R → Type 0
Acts view r = (view.hits r ≡ ok true) × ((view.action r ≡ allow) ⊎ (view.action r ≡ deny))

module _ {R : Type 0} (view : View R) (key : R → ℕ) where
  passes : (r : R) → Passes view r → Acts view r → ⊥
  passes r (inl miss) (hit, acts) = cc (sym miss ∙ hit)
  passes r (inr (hit, na, nd)) (_, inl a) = na a
  passes r (inr (hit, na, nd)) (_, inr n) = nd n

  all_pass : (rs : List R) → All (Passes view) rs → All (λ q. Acts view q → ⊥) rs
  all_pass [] h = tt
  all_pass (r ∷ rs) h = (passes r h.0, all_pass rs h.1)

  behind :
      (c : R) (after : List R)
      → All (λ q. int_lt q (key c) ≡ false) (map key after)
      → All (λ q. Acts view q → int_lt (key q) (key c) ≡ false) after
  behind c [] h = tt
  behind c (q ∷ qs) h = (λ _. h.0, behind c qs h.1)

  lowest_in :
      (before after : List R) (c : R)
      → All (Passes view) before
      → Ascending (map key (before ++ c ∷ after))
      → All (λ q. Acts view q → int_lt (key q) (key c) ≡ false) (before ++ c ∷ after)
  lowest_in [] after c p h = (λ _. int_lt_irrefl (key c), behind c after h.0)
  lowest_in (b ∷ before) after c p h =
      (λ acts. absurd (passes b p.0 acts), lowest_in before after c p.1 h.1)

  -- The verdict is that of a rule with the lowest priority of those that act, or the default's.
  abbrev pub LowestDecides : RuleAction → List R → Verdict → Type 0
  LowestDecides default rs v =
      ((r : R) × Acts view r
        × (((view.action r ≡ allow) × (v ≡ permit (view.cache r)))
            ⊎ ((view.action r ≡ deny) × (v ≡ refuse)))
        × All (λ q. Acts view q → int_lt (key q) (key r) ≡ false) rs)
      ⊎ (All (λ q. Acts view q → ⊥) rs × (v ≡ default_verdict default))

  abbrev pub DecidesLowest : RuleAction → List R → Result Verdict → Type 0
  DecidesLowest default rs (ok v) = LowestDecides default rs v
  DecidesLowest default rs (panic fault) = Unit

  chosen_lowest :
      {a : RuleAction} (rs : List R)
      → Ascending (map key rs)
      → (c : Chosen view a rs) → All (λ q. Acts view q → int_lt (key q) (key c.rule) ≡ false) rs
  chosen_lowest rs h c = rw c.split (lowest_in c.before c.after c.rule c.passed (rw c.split at h))

  by_outcome :
      (default : RuleAction) (rs : List R) (v : Verdict)
      → Ascending (map key rs)
      → Outcome view default rs v
      → LowestDecides default rs v
  by_outcome default rs v h (inl (c, e)) =
      inl (c.rule, (c.hit, inl c.acts), inl (c.acts, e), chosen_lowest rs h c)
  by_outcome default rs v h (inr (inl (c, e))) =
      inl (c.rule, (c.hit, inr c.acts), inr (c.acts, e), chosen_lowest rs h c)
  by_outcome default rs v h (inr (inr (p, e))) = inr (all_pass rs p, e)

module _ (d : ConfigDeps) (sorts : Sorts d.sort) where
  -- Of the rules of a list as `ReadConfigFromFile` prepares them, one with the lowest priority among
  -- those that act on a request decides over it, whatever their order in the file; if none acts, the
  -- default action does. `sort.Slice` is taken to sort, and to compile a rule to keep its priority.
  prepare-LowestDecides :
      {R : Type 0} (view : View R) (key : R → ℕ) (compile : R → Result R)
      → ((r r' : R) → compile r ≡ ok r' → key r' ≡ key r)
      → (default : RuleAction) (rules rs : List R) (v : Verdict)
      → prepare d key compile rules ≡ ok rs
      → verdict view default rs ≡ ok v
      → LowestDecides view key default rs v
  prepare-LowestDecides view key compile keeps default rules rs v e h =
      by_outcome view key default rs v (prepare-Ascending d sorts key compile keeps rules rs e)
        (verdict_cases view default rs v h)

  pub prepare-DecidesLowest :
      {R : Type 0} (view : View R) (key : R → ℕ) (compile : R → Result R)
      → ((r r' : R) → compile r ≡ ok r' → key r' ≡ key r)
      → (default : RuleAction) (rules rs : List R) → prepare d key compile rules ≡ ok rs
      → DecidesLowest view key default rs (verdict view default rs)
  prepare-DecidesLowest {R} view key compile keeps default rules rs e =
      by_result (verdict view default rs) refl
    where
      by_result :
          (m : Result Verdict) → verdict view default rs ≡ m → DecidesLowest view key default rs m
      by_result (panic fault) h = tt
      by_result (ok v) h = prepare-LowestDecides view key compile keeps default rules rs v e h
