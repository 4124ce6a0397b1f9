-- ===== src/Policy/Laws.antt =====
-- The verdict of a list of rules, by the rule that decides.
use cosmoguard.Prelude.{
  ◌≡◌, refl, ◌⊎◌, inl, inr, Bool, true, false, List, [], ◌∷◌, ◌++◌, string_eq, ◌==◌, if◌then◌else◌,
  All, arith, eq_iff, ap, Bool-cases,
}
use cosmoguard.Go.{Result, ok, panic, ◌>>=◌}
use cosmoguard.Rules.{RuleAction, allow, deny}
use cosmoguard.Policy.{Verdict, permit, refuse, View, verdict, act, default_verdict, Passes, Chosen}

module _ {R : Type 0} (view : View R) (default : RuleAction) where
  -- Rules that do not decide can be dropped.
  pub verdict-skip :
      (rs rest : List R)
      → All (Passes view) rs
      → verdict view default (rs ++ rest) ≡ verdict view default rest
  unfolding verdict
  verdict-skip [] rest h = refl
  verdict-skip (r ∷ rs) rest h =
      ground
        (arith, eq_iff (view.action r) allow, eq_iff (view.action r) deny, verdict-skip rs rest h.1)

  abbrev Chosen-cons :
      {a : RuleAction} {r : R} {rs : List R}
      → Passes view r
      → Chosen view a rs
      → Chosen view a (r ∷ rs)
  Chosen-cons {r} p c = record {
    before = r ∷ c.before;
    rule = c.rule;
    after = c.after;
    split = ap (◌∷◌ r) c.split;
    passed = (p, c.passed);
    hit = c.hit;
    acts = c.acts;
  }

  abbrev Chosen-head :
      {a : RuleAction} {r : R} {rs : List R}
      → view.hits r ≡ ok true
      → view.action r ≡ a
      → Chosen view a (r ∷ rs)
  Chosen-head {r} {rs} h e = record {
    before = [];
    rule = r;
    after = rs;
    split = refl;
    passed = tt;
    hit = h;
    acts = e;
  }

  abbrev pub Outcome : List R → Verdict → Type 0
  Outcome rs v =
      ((c : Chosen view allow rs) × (v ≡ permit (view.cache c.rule)))
      ⊎ (((c : Chosen view deny rs) × (v ≡ refuse))
          ⊎ (All (Passes view) rs × (v ≡ default_verdict default)))

  Outcome-cons :
      (r : R) (rs : List R) (v : Verdict) → Passes view r → Outcome rs v → Outcome (r ∷ rs) v
  Outcome-cons r rs v p (inl (c, e)) = inl (Chosen-cons p c, e)
  Outcome-cons r rs v p (inr (inl (c, e))) = inr (inl (Chosen-cons p c, e))
  Outcome-cons r rs v p (inr (inr (h, e))) = inr (inr ((p, h), e))

  acting_cases :
      (r : R) (rs : List R) (v : Verdict)
      → view.hits r ≡ ok true
      → (verdict view default rs ≡ ok v → Outcome rs v)
      → act view default r (verdict view default rs) ≡ ok v
      → Outcome (r ∷ rs) v
  unfolding act
  acting_cases r rs v h ih e = elim (Bool-cases (view.action r == allow)) [
    | inl a ↦ inl (Chosen-head h ((eq_iff _ _).0 a), ground arith)
    | inr na ↦ elim (Bool-cases (view.action r == deny)) [
      | inl d ↦ inr (inl (Chosen-head h ((eq_iff _ _).0 d), ground arith))
      | inr nd ↦
          Outcome-cons r rs v
            (inr (
              h,
              ground (arith, eq_iff (view.action r) allow),
              ground (arith, eq_iff (view.action r) deny),
            ))
            (ih (ground arith))
    ]
  ]

  hit_cases :
      (r : R) (rs : List R) (v : Verdict) (hit : Result Bool)
      → view.hits r ≡ hit
      → (verdict view default rs ≡ ok v → Outcome rs v)
      → (hit >>= λ b.
          if b then act view default r (verdict view default rs) else verdict view default rs)
        ≡ ok v
      → Outcome (r ∷ rs) v
  hit_cases r rs v (panic f) h ih e = cc
  hit_cases r rs v (ok true) h ih e = acting_cases r rs v h ih e
  hit_cases r rs v (ok false) h ih e = Outcome-cons r rs v (inl h) (ih e)

  -- The verdict is that of the first rule that decides, or the default's.
  pub verdict_cases : (rs : List R) (v : Verdict) → verdict view default rs ≡ ok v → Outcome rs v
  unfolding verdict
  verdict_cases [] v e = inr (inr (tt, ground arith))
  verdict_cases (r ∷ rs) v e = hit_cases r rs v (view.hits r) refl (verdict_cases rs v) e

  total_step :
      (r : R) (rs : List R) (b : Bool)
      → view.hits r ≡ ok b
      → ((v : Verdict) × (verdict view default rs ≡ ok v))
      → (v : Verdict) × (verdict view default (r ∷ rs) ≡ ok v)
  unfolding verdict
  total_step r rs false h (v, e) = (v, ground arith)
  total_step r rs true h (v, e) = elim (Bool-cases (view.action r == allow)) [
    | inl a ↦ (permit (view.cache r), ground arith)
    | inr na ↦ elim (Bool-cases (view.action r == deny)) [
      | inl d ↦ (refuse, ground arith)
      | inr nd ↦ (v, ground arith)
    ]
  ]

  -- Where no match panics there is a verdict.
  pub verdict_total :
      ((r : R) → (b : Bool) × (view.hits r ≡ ok b))
      → (rs : List R) → (v : Verdict) × (verdict view default rs ≡ ok v)
  verdict_total h [] = (default_verdict default, unfold verdict in refl)
  verdict_total h (r ∷ rs) = total_step r rs (h r).0 (h r).1 (verdict_total h rs)
