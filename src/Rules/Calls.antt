-- ===== src/Rules/Calls.antt =====
-- What a compiled JSON-RPC rule matches: method and parameters together.
use cosmoguard.Prelude.{
  ◌≡◌, ◌≢◌, refl, ap, subst, ◌∙◌, sym, ◌↔◌, ◌⊎◌, inl, inr, Bool, true, false, ◌||◌, List, [], ◌∷◌,
  String, is_nil, if◌then◌else◌, arith, Any,
}
use cosmoguard.Go.{
  Result, ok, >>=-eq-ok, ok-injective, dict, Fields, end, field, as_string, has_fields,
}
use cosmoguard.Glob.{Globs, compile_all}
use cosmoguard.Rules.Http.{any_glob}
use cosmoguard.Rules.Patterns.{Matches, compile_all-any_glob_iff, listed_iff}
use cosmoguard.Rules.Params.{AllFields, Distinct, Agrees, compile_fields-match_fields_iff}
use cosmoguard.Rules.JsonRpc.{
  JsonRpcRule, compile_fields, compile_methods, compile_params, compile, method_match, match_fields,
  match_params, match,
}

module _ (lib : Globs) where
  -- The loop that does not stop finds what the loop that stops finds.
  method_match_lem :
      (gs : List lib.Glob) (method : String) (found : Bool)
      → method_match lib gs method found ≡ (found || any_glob lib gs method)
  unfolding method_match any_glob
  method_match_lem [] method found = ground arith
  method_match_lem (g ∷ gs) method found =
      ground (arith, method_match_lem gs method true, method_match_lem gs method found)

  compile_methods_inv :
      (r r' : JsonRpcRule lib.Glob) (ms : List String)
      → r.methods ≡ ms
      → compile_methods lib r ≡ ok r'
      → (r'.methods ≡ r.methods)
        × (r'.params ≡ r.params)
        × (r'.params_globs ≡ r.params_globs)
        × (r'.params_slice ≡ r.params_slice)
        × ((r.methods ≡ []) ⊎ (compile_all lib [] r.methods ≡ ok r'.method_globs))
  unfolding compile_methods
  compile_methods_inv r r' [] n e = ground arith
  compile_methods_inv r r' (m ∷ ms) n e = ground arith

  -- Whether the rule's methods match, in terms of the configuration file.
  abbrev pub AcceptsMethod : List String → String → Type 0
  AcceptsMethod methods method = (methods ≡ []) ⊎ Any (Matches lib [] method) methods

  methods_iff :
      (methods : List String) (globs : List lib.Glob) (method : String)
      → ((methods ≡ []) ⊎ (compile_all lib [] methods ≡ ok globs))
      → (method_match lib globs method (is_nil methods) ≡ true) ↔ AcceptsMethod methods method
  methods_iff methods globs method c =
      rw (method_match_lem globs method (is_nil methods))
        (listed_iff methods (any_glob lib globs method) (Matches lib [] method) (λ n. from c n))
    where
      from :
          ((methods ≡ []) ⊎ (compile_all lib [] methods ≡ ok globs))
          → methods ≢ []
          → (any_glob lib globs method ≡ true) ↔ Any (Matches lib [] method) methods
      from (inl e) n = absurd (n e)
      from (inr e) n = compile_all-any_glob_iff lib [] method methods globs e

  params_lem :
      (r : JsonRpcRule lib.Glob) (ps req : Fields)
      → r.params ≡ dict ps
      → r.params_map ≡ true
      → match_params lib r (dict req) r.params ≡ match_fields lib r.params_globs ps req
  unfolding match_params
  params_lem r ps req p m = ap (match_params lib r (dict req)) p ∙ rw m

  -- A compiled rule whose parameters are a map, on a request whose parameters are a map.
  dict_match_lem :
      (r : JsonRpcRule lib.Glob) (method : String) (ps req : Fields)
      → r.params ≡ dict ps
      → r.params_map ≡ has_fields ps
      → r.params_slice ≡ false
      → match lib r method (dict req) ≡ (
          if method_match lib r.method_globs method (is_nil r.methods)
          then match_fields lib r.params_globs ps req
          else ok false)
  unfolding match match_fields
  dict_match_lem r method end req p m s = ground arith
  dict_match_lem r method (field k v ps) req p m s =
      let same = params_lem r (field k v ps) req p m in ground (arith, same)

  if_iff :
      (b : Bool) (x : Result Bool) {A B : Type 0}
      → ((b ≡ true) ↔ A)
      → ((x ≡ ok true) ↔ B)
      → ((if b then x else ok false) ≡ ok true) ↔ (A × B)
  if_iff true x h k = ((λ e. (h.0 refl, k.0 e)), λ p. k.1 p.1)
  if_iff false x h k = ((λ e. absurd (cc)), λ p. absurd (let q = h.1 p.0 in cc))

  compile_params_inv :
      (r r' : JsonRpcRule lib.Glob) (ps : Fields)
      → compile_params lib (dict ps) r ≡ ok r'
      → (compile_fields lib ps r.params_globs ≡ ok r'.params_globs)
        × (r'.params_map ≡ has_fields ps)
        × (r'.params ≡ r.params)
        × (r'.methods ≡ r.methods)
        × (r'.method_globs ≡ r.method_globs)
        × (r'.params_slice ≡ r.params_slice)
  unfolding compile_params
  compile_params_inv r r' ps e =
      let (globs, fields, e') = >>=-eq-ok (compile_fields lib ps r.params_globs) _ e in
      let same = ok-injective e' in
      (
        fields ∙ ap (λ (x : JsonRpcRule lib.Glob). ok x.params_globs) same,
        sym (ap (λ (x : JsonRpcRule lib.Glob). x.params_map) same),
        sym (ap (λ (x : JsonRpcRule lib.Glob). x.params) same),
        sym (ap (λ (x : JsonRpcRule lib.Glob). x.methods) same),
        sym (ap (λ (x : JsonRpcRule lib.Glob). x.method_globs) same),
        sym (ap (λ (x : JsonRpcRule lib.Glob). x.params_slice) same),
      )

  -- A rule with a map of parameters, fresh from the configuration file and then compiled, matches a
  -- request whose parameters are a map exactly when a method pattern matches, or none is listed, and
  -- each parameter of the rule agrees with the request: a text is a pattern that matches a text under
  -- the same key, and any other value equals the request's.
  pub compile-match_iff :
      (r r' : JsonRpcRule lib.Glob) (ps req : Fields) (method : String)
      → compile lib r ≡ ok r'
      → r.params ≡ dict ps
      → Distinct ps
      → r.params_globs ≡ []
      → r.params_slice ≡ false
      → (match lib r' method (dict req) ≡ ok true)
        ↔ (AcceptsMethod r.methods method × AllFields (λ k v. Agrees lib (as_string v) req k v) ps)
  unfolding compile
  compile-match_iff r r' ps req method e p d fresh no_slice =
      let (r1, methods, e') = >>=-eq-ok (compile_methods lib r) _ e in
      let (same_m, same_p, same_g, same_s, globs) =
        compile_methods_inv r r1 r.methods refl methods in
      let e1 : compile_params lib (dict ps) r1 ≡ ok r' =
        ap (λ v. compile_params lib v r1) (sym (same_p ∙ p)) ∙ e' in
      let (fields, has_map, kept_p, kept_m, kept_g, kept_s) = compile_params_inv r1 r' ps e1 in
      let fields' : compile_fields lib ps [] ≡ ok r'.params_globs =
        ap (compile_fields lib ps) (sym (same_g ∙ fresh)) ∙ fields in
      let lemma =
        dict_match_lem r' method ps req (kept_p ∙ (same_p ∙ p)) has_map
          (kept_s ∙ (same_s ∙ no_slice)) in
      rw lemma (
        if_iff _ (match_fields lib r'.params_globs ps req)
          (subst
            (λ (ms : List String).
              (method_match lib r'.method_globs method (is_nil ms) ≡ true)
              ↔ AcceptsMethod r.methods method)
            (sym (kept_m ∙ same_m))
            (subst
              (λ (gs : List lib.Glob).
                (method_match lib gs method (is_nil r.methods) ≡ true)
                ↔ AcceptsMethod r.methods method)
              (sym kept_g) (methods_iff r.methods r1.method_globs method globs)))
          (compile_fields-match_fields_iff lib ps req r'.params_globs d fields'))
