-- ===== src/Tests/Sorting.antt =====
-- A stand-in for `sort.Slice`: insertion sort.
use mathlib.Core.List.{Perm}
use mathlib.Core.List.Perm
use cosmoguard.Prelude.{
  ℕ, ◌≡◌, Bool, true, false, List, [], ◌∷◌, map, All, All-map, arith, Bool-cases, inl, inr,
  if◌then◌else◌,
}
use cosmoguard.Go.{int_lt}
use cosmoguard.Config.Priority.{Ascending, Sorts}

unfoldable pub put : {R : Type 0} → (R → R → Bool) → R → List R → List R
put lt x [] = x ∷ []
put lt x (y ∷ ys) = let rest = put lt x ys in if lt y x then y ∷ rest else x ∷ y ∷ ys

unfoldable pub insertion : (R : Type 0) → (R → R → Bool) → List R → List R
unfolding put
insertion R lt [] = []
insertion R lt (x ∷ xs) = put lt x (insertion R lt xs)

int_lt_trans : (a b c : ℕ) → int_lt b a ≡ false → int_lt c b ≡ false → int_lt c a ≡ false
unfolding int_lt
int_lt_trans a b c h k = ground (arith, h, k)

int_lt_asym : (a b : ℕ) → int_lt a b ≡ true → int_lt b a ≡ false
unfolding int_lt
int_lt_asym a b h = ground (arith, h)

module _ {R : Type 0} (key : R → ℕ) where
  abbrev below : R → R → Bool
  below a b = int_lt (key a) (key b)

  put-All :
      (P : ℕ → Type 0) (x : R) (ys : List R)
      → P (key x)
      → All P (map key ys)
      → All P (map key (put below x ys))
  unfolding put
  put-All P x [] p h = (p, tt)
  put-All P x (y ∷ ys) p h = elim (Bool-cases (below y x)) [
    | inl e ↦ rw (e, put) (h.0, put-All P x ys p h.1)
    | inr e ↦ rw (e, put) (p, h)
  ]

  put-Ascending :
      (x : R) (ys : List R) → Ascending (map key ys) → Ascending (map key (put below x ys))
  unfolding put
  put-Ascending x [] h = (tt, tt)
  put-Ascending x (y ∷ ys) h = elim (Bool-cases (below y x)) [
    | inl e ↦
        rw (e, put)
          (
            put-All (λ q. int_lt q (key y) ≡ false) x ys (int_lt_asym (key y) (key x) e) h.0,
            put-Ascending x ys h.1,
          )
    | inr e ↦
        rw (e, put)
          (
            (
              e,
              All-map (λ q. int_lt q (key y) ≡ false) (λ q. int_lt q (key x) ≡ false) (map key ys)
                  (λ q k. int_lt_trans (key x) (key y) q e k) h.0,
            ),
            h,
          )
  ]

  put-Perm : (x : R) (ys : List R) → Perm (put below x ys) (x ∷ ys)
  unfolding put
  put-Perm x [] = Perm.refl (x ∷ [])
  put-Perm x (y ∷ ys) = elim (Bool-cases (below y x)) [
    | inl e ↦ rw (e, put) (Perm.trans (Perm.cons y (put-Perm x ys)) (Perm.swap x y ys))
    | inr e ↦ rw (e, put) (Perm.refl (x ∷ y ∷ ys))
  ]

  insertion-Ascending : (xs : List R) → Ascending (map key (insertion R below xs))
  unfolding insertion
  insertion-Ascending [] = tt
  insertion-Ascending (x ∷ xs) = put-Ascending x (insertion R below xs) (insertion-Ascending xs)

  insertion-Perm : (xs : List R) → Perm (insertion R below xs) xs
  unfolding insertion
  insertion-Perm [] = Perm.nil
  insertion-Perm (x ∷ xs) =
      Perm.trans (put-Perm x (insertion R below xs)) (Perm.cons x (insertion-Perm xs))

pub insertion-Sorts : Sorts insertion
insertion-Sorts R key rs = (insertion-Ascending key rs, insertion-Perm key rs)
