-- ===== src/Rules/Patterns.antt =====
-- What a compiled rule matches, in terms of the patterns of the configuration file: HTTP and gRPC.
use Prim.Native.Char.{Char}
use cosmoguard.Prelude.{
  ◌≡◌, refl, ◌⊎◌, ◌↔◌, inl, inr, ◌≢◌, ◌&&◌, ◌||◌, is_nil, Bool, true, false, List, [], ◌∷◌, String,
  some, Any, Bool-cases, arith,
}
use cosmoguard.Go.{ok, >>=-eq-ok, ok-injective, equal_fold}
use cosmoguard.Glob.{Globs, must_compile, compile_all}
use cosmoguard.Rules.Http.{HttpRule, Target, any_glob, slice_contains_string_ignore_case}
use cosmoguard.Rules.Http
use cosmoguard.Rules.Grpc.{GrpcRule}
use cosmoguard.Rules.Grpc

module _ (lib : Globs) where
  -- The pattern is accepted, and its glob matches the text.
  abbrev pub Matches : List Char → String → String → Type 0
  Matches seps text p = (g : lib.Glob) × (lib.compile p seps ≡ some g) × (lib.matches g text ≡ true)

  pub must_compile_inv :
      (p : String) (seps : List Char) (g : lib.Glob)
      → must_compile lib p seps ≡ ok g
      → lib.compile p seps ≡ some g
  unfolding must_compile
  must_compile_inv p seps g e = ground arith

  any_glob-cons_iff :
      (seps : List Char) (text p : String) (ps : List String) (g : lib.Glob) (gs : List lib.Glob)
      → lib.compile p seps ≡ some g
      → ((any_glob lib gs text ≡ true) ↔ Any (Matches seps text) ps)
      → (any_glob lib (g ∷ gs) text ≡ true) ↔ Any (Matches seps text) (p ∷ ps)
  unfolding any_glob
  any_glob-cons_iff seps text p ps g gs e ih = (to, from)
    where
      to : any_glob lib (g ∷ gs) text ≡ true → Any (Matches seps text) (p ∷ ps)
      to h = elim (Bool-cases (lib.matches g text)) [
        | inl m ↦ inl (g, e, m)
        | inr n ↦ inr (ih.0 (rw (n, any_glob) at h))
      ]

      from : Any (Matches seps text) (p ∷ ps) → any_glob lib (g ∷ gs) text ≡ true
      from (inl (g', e', m)) = ground arith
      from (inr a) = ground (arith, ih.1 a)

  -- The compiled globs match a text exactly when one of the patterns does.
  pub compile_all-any_glob_iff :
      (seps : List Char) (text : String) (ps : List String) (gs : List lib.Glob)
      → compile_all lib seps ps ≡ ok gs
      → (any_glob lib gs text ≡ true) ↔ Any (Matches seps text) ps
  unfolding compile_all any_glob
  compile_all-any_glob_iff seps text [] gs e = ground arith
  compile_all-any_glob_iff seps text (p ∷ ps) gs e =
      let (g, compiled, e') = >>=-eq-ok (must_compile lib p seps) _ e in
      let (gs', rest, e'') = >>=-eq-ok (compile_all lib seps ps) _ e' in
      rw (← ok-injective e'') (
        any_glob-cons_iff seps text p ps g gs' (must_compile_inv p seps g compiled)
          (compile_all-any_glob_iff seps text ps gs' rest))

slice_contains_iff :
    (l : List String) (key : String)
    → (slice_contains_string_ignore_case l key ≡ true) ↔ Any (λ m. equal_fold m key ≡ true) l
unfolding slice_contains_string_ignore_case
slice_contains_iff [] key = ground arith
slice_contains_iff (k ∷ l) key = ground (arith, slice_contains_iff l key)

-- A list of patterns where an empty list stands for all.
pub listed_iff :
    (l : List String) (t : Bool) (P : String → Type 0)
    → (l ≢ [] → (t ≡ true) ↔ Any P l)
    → ((is_nil l || t) ≡ true) ↔ ((l ≡ []) ⊎ Any P l)
listed_iff [] t P h = ground arith
listed_iff (x ∷ xs) t P h = ((λ e. inr ((h (λ e'. cc)).0 e)), λ o. from o)
  where
    from : ((x ∷ xs) ≡ []) ⊎ Any P (x ∷ xs) → t ≡ true
    from (inl e) = cc
    from (inr a) = (h (λ e'. cc)).1 a

pub and_iff :
    (a b : Bool) {A B : Type 0} → ((a ≡ true) ↔ A) → ((b ≡ true) ↔ B) → ((a && b) ≡ true) ↔ (A × B)
and_iff true b h k = ((λ e. (h.0 refl, k.0 e)), λ p. k.1 p.1)
and_iff false b h k = ((λ e. cc), λ p. h.1 p.0)

module _ (lib : Globs) where
  Http-compile_inv :
      (r r' : HttpRule lib.Glob) (ps : List String)
      → r.paths ≡ ps
      → Http.compile lib r ≡ ok r'
      → (r'.paths ≡ r.paths)
        × (r'.methods ≡ r.methods)
        × ((r.paths ≡ []) ⊎ (compile_all lib ("/" ∷ []) r.paths ≡ ok r'.path_globs))
  unfolding Http.compile
  Http-compile_inv r r' [] n e = ground arith
  Http-compile_inv r r' (p ∷ ps) n e = ground arith

  Http-match_lem :
      (r : HttpRule lib.Glob) (req : Target)
      → Http.match lib r req ≡ (
          (is_nil r.methods || slice_contains_string_ignore_case r.methods req.method)
          && (is_nil r.paths || any_glob lib r.path_globs req.path))
  unfolding Http.match
  Http-match_lem r req = ground arith

  -- An HTTP rule, once compiled, matches a request exactly when the method is listed in any case of
  -- letters, or none is listed, and a listed path pattern matches the path, or none is listed.
  pub Http-compile-match_iff :
      (r r' : HttpRule lib.Glob) (req : Target)
      → Http.compile lib r ≡ ok r'
      → (Http.match lib r' req ≡ true) ↔ (
          ((r.methods ≡ []) ⊎ Any (λ m. equal_fold m req.method ≡ true) r.methods)
          × ((r.paths ≡ []) ⊎ Any (Matches lib ("/" ∷ []) req.path) r.paths))
  Http-compile-match_iff r r' req e =
      let (same_paths, same_methods, compiled) = Http-compile_inv r r' r.paths refl e in
      rw (Http-match_lem r' req, same_methods, same_paths)
        (and_iff _ _ (listed_iff r.methods _ _ (λ n. slice_contains_iff r.methods req.method))
          (listed_iff r.paths _ _ (λ n. globs compiled n)))
    where
      globs :
          ((r.paths ≡ []) ⊎ (compile_all lib ("/" ∷ []) r.paths ≡ ok r'.path_globs))
          → r.paths ≢ []
          → (any_glob lib r'.path_globs req.path ≡ true)
            ↔ Any (Matches lib ("/" ∷ []) req.path) r.paths
      globs (inl e) n = absurd (n e)
      globs (inr c) n = compile_all-any_glob_iff lib _ req.path r.paths r'.path_globs c

  Grpc-compile_inv :
      (r r' : GrpcRule lib.Glob) (ps : List String)
      → r.methods ≡ ps
      → Grpc.compile lib r ≡ ok r'
      → (r'.methods ≡ r.methods)
        × ((r.methods ≡ []) ⊎ (compile_all lib ("/" ∷ []) r.methods ≡ ok r'.method_globs))
  unfolding Grpc.compile
  Grpc-compile_inv r r' [] n e = ground arith
  Grpc-compile_inv r r' (p ∷ ps) n e = ground arith

  Grpc-match_lem :
      (r : GrpcRule lib.Glob) (method : String)
      → Grpc.match lib r method ≡ (is_nil r.methods || any_glob lib r.method_globs method)
  unfolding Grpc.match
  Grpc-match_lem r method = ground arith

  -- A gRPC rule, once compiled, matches a method exactly when one of its patterns does, or it has
  -- none.
  pub Grpc-compile-match_iff :
      (r r' : GrpcRule lib.Glob) (method : String)
      → Grpc.compile lib r ≡ ok r'
      → (Grpc.match lib r' method ≡ true)
        ↔ ((r.methods ≡ []) ⊎ Any (Matches lib ("/" ∷ []) method) r.methods)
  Grpc-compile-match_iff r r' method e =
      let (same, compiled) = Grpc-compile_inv r r' r.methods refl e in
      rw (Grpc-match_lem r' method, same) (listed_iff r.methods _ _ (λ n. globs compiled n))
    where
      globs :
          ((r.methods ≡ []) ⊎ (compile_all lib ("/" ∷ []) r.methods ≡ ok r'.method_globs))
          → r.methods ≢ []
          → (any_glob lib r'.method_globs method ≡ true)
            ↔ Any (Matches lib ("/" ∷ []) method) r.methods
      globs (inl e) n = absurd (n e)
      globs (inr c) n = compile_all-any_glob_iff lib _ method r.methods r'.method_globs c
