-- ===== src/Util/Separator.antt =====
-- Texts with a separator, such as the keys `namespace:key` of pkg/cache/redis.go.
use Prim.Native.Char.{Char, code}
use Prim.Native.String.{String, [], ◌∷◌, ◌++◌}
use text.Mathlib.TextLemmas.{nil-append, cons-append, head-eq_of_cons-eq, tail-eq_of_cons-eq}
use cosmoguard.Prelude.{
  Bool, true, not, ◌&&◌, ◌==◌, nat_eq, nat_beq_iff, arith, ℕ, ◌≡◌, ◌≢◌, refl, sym, ap, ◌∙◌,
}

-- No character of the text has this code.
unfoldable pub is_free_of : ℕ → String → Bool
is_free_of n [] = true
is_free_of n (c ∷ s) = not (code c == n) && is_free_of n s

is_free_of-cons :
    (n : ℕ) (c : Char) (s : String)
    → is_free_of n (c ∷ s) ≡ true
    → (code c ≢ n) × (is_free_of n s ≡ true)
unfolding is_free_of
is_free_of-cons n c s e = ground (arith, nat_beq_iff (code c) n)

-- The text up to the first separator is determined.
pub up_to_separator :
    (c : Char) (a b s t : String)
    → is_free_of (code c) a ≡ true
    → is_free_of (code c) b ≡ true
    → a ++ (c ∷ s) ≡ b ++ (c ∷ t)
    → a ≡ b
up_to_separator c [] [] s t f g e = refl
up_to_separator c [] (y ∷ b) s t f g e = absurd (
    (is_free_of-cons (code c) y b g).0
      (ap code (sym (head-eq_of_cons-eq (sym (nil-append (c ∷ s)) ∙ e ∙ cons-append y b (c ∷ t))))))
up_to_separator c (x ∷ a) [] s t f g e = absurd (
    (is_free_of-cons (code c) x a f).0
      (ap code (head-eq_of_cons-eq (sym (cons-append x a (c ∷ s)) ∙ e ∙ nil-append (c ∷ t)))))
up_to_separator c (x ∷ a) (y ∷ b) s t f g e =
    let h = sym (cons-append x a (c ∷ s)) ∙ e ∙ cons-append y b (c ∷ t) in
    ap (λ d. d ∷ a) (head-eq_of_cons-eq h)
    ∙ ap (λ r. y ∷ r)
        (up_to_separator c a b s t (is_free_of-cons (code c) x a f).1
          (is_free_of-cons (code c) y b g).1 (tail-eq_of_cons-eq h))
