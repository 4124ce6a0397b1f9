-- ===== src/Util/UniqueId/Laws.antt =====
-- The ids that the generator hands out.
use cosmoguard.Prelude.{
  ℕ, ◌%◌, ◌^◌, ◌-◌, ◌≡◌, refl, List, [], ◌∷◌, true, false, String, some, lookup, insert,
  lookup-insert, string_eq, ◌==◌, beq_refl, if◌then◌else◌, Bool-cases, Any, inl, inr,
}
use cosmoguard.Go.{itoa}
use cosmoguard.Util.UniqueId.{UniqueId, is_free, id, release}

-- A number as the generator writes it, and whether its id is free.
abbrev pub drawn_id : ℕ → String
drawn_id n = itoa (n % (2 ^ 31 - 1))

taken_lem :
    (i : String) (u : UniqueId)
    → is_free (lookup i u) ≡ true
    → (is_free (lookup i u) ≡ true)
      × (is_free (lookup i (insert i true u)) ≡ false)
      × (is_free (lookup i (release i (insert i true u))) ≡ true)
      × ((j : String) → lookup j (insert i true u) ≡ (if i == j then some true else lookup j u))
unfolding release
taken_lem i u free = (
  free,
  rw (lookup-insert i i true u, beq_refl i) refl,
  rw (lookup-insert i i false (insert i true u), beq_refl i) refl,
  λ j. lookup-insert i j true u,
)

-- An id that is handed out was not in use and is in use afterwards, and every other id stays as it
-- was; to release it makes it free again.
pub id-fresh :
    (drawn : List ℕ) (u u' : UniqueId) (i : String)
    → id drawn u ≡ some (u', i)
    → (is_free (lookup i u) ≡ true)
      × (is_free (lookup i u') ≡ false)
      × (is_free (lookup i (release i u')) ≡ true)
      × ((j : String) → lookup j u' ≡ (if i == j then some true else lookup j u))
unfolding id release
id-fresh [] u u' i e = absurd (cc)
id-fresh (n ∷ ns) u u' i e = elim (Bool-cases (is_free (lookup (drawn_id n) u))) [
  | inl free ↦
      let q : some (insert (drawn_id n) true u, drawn_id n) ≡ some (u', i) = rw (free, id) at e in
      let same : drawn_id n ≡ i = cc in
      let changed : insert (drawn_id n) true u ≡ u' = cc in
      rw (← changed, ← same) (taken_lem (drawn_id n) u free)
  | inr taken ↦ id-fresh ns u u' i (rw (taken, id) at e)
]

-- The generator ends once it draws a number whose id is free.
pub id-finds :
    (drawn : List ℕ) (u : UniqueId)
    → Any (λ n. is_free (lookup (drawn_id n) u) ≡ true) drawn
    → (r : UniqueId × String) × (id drawn u ≡ some r)
unfolding id
id-finds [] u a = absurd a
id-finds (n ∷ ns) u (inl free) = ((insert (drawn_id n) true u, drawn_id n), rw free refl)
id-finds (n ∷ ns) u (inr later) = elim (Bool-cases (is_free (lookup (drawn_id n) u))) [
  | inl free ↦ ((insert (drawn_id n) true u, drawn_id n), rw free refl)
  | inr taken ↦ let (r, e) = id-finds ns u later in (r, rw taken e)
]
