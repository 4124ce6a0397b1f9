-- ===== src/Rules/Params.antt =====
-- What a JSON-RPC rule with parameters matches, in terms of the configuration file.
use cosmoguard.Prelude.{
  ◌≡◌, ◌≢◌, refl, ap, subst, ◌∙◌, sym, ◌↔◌, inl, inr, Bool, true, false, List, [], ◌∷◌, String,
  Option, none, some, lookup, insert, lookup-insert, string_eq, beq_refl, beq_ne, if◌then◌else◌,
  arith, Option-cases,
}
use cosmoguard.Go.{
  Result, ok, panic, ◌>>=◌, >>=-eq-ok, ok-injective, Value, str, Fields, end, field, get,
  get_or_nil, as_string, iface_eq,
}
use cosmoguard.Glob.{Globs, must_compile}
use cosmoguard.Rules.Patterns.{Matches, must_compile_inv}
use cosmoguard.Rules.JsonRpc.{compile_fields, param_match, match_fields}

abbrev pub AllFields : (String → Value → Type 0) → Fields → Type 0
AllFields P end = Unit
AllFields P (field k v fs) = P k v × AllFields P fs

-- The keys of a map are distinct.
abbrev pub Distinct : Fields → Type 0
Distinct end = Unit
Distinct (field k v fs) = AllFields (λ j w. k ≢ j) fs × Distinct fs

module _ (lib : Globs) where
  -- A parameter of the rule that is a text is a pattern for a text of the request; any other must be
  -- equal to the request's.
  abbrev pub Agrees : Option String → Fields → String → Value → Type 0
  Agrees (some p) req k v = (s : String) × (get k req ≡ some (str s)) × Matches lib ("/" ∷ []) s p
  Agrees none req k v = iface_eq v (get_or_nil k req) ≡ ok true

  -- The glob that the compiled rule holds for a parameter.
  abbrev pub Holds : Option String → Option lib.Glob → Type 0
  Holds (some p) o = (g : lib.Glob) × (o ≡ some g) × (lib.compile p ("/" ∷ []) ≡ some g)
  Holds none o = o ≡ none

  -- Keys that are not among the parameters keep their globs.
  compile_fields-other :
      (j : String) (ps : Fields) (globs globs' : List (String × lib.Glob))
      → AllFields (λ k v. j ≢ k) ps
      → compile_fields lib ps globs ≡ ok globs'
      → lookup j globs' ≡ lookup j globs
  unfolding compile_fields
  compile_fields-other j end globs globs' d e = ap (lookup j) (sym (ok-injective e))
  compile_fields-other j (field k v ps) globs globs' d e = elim (Option-cases (as_string v)) [
    | inl n ↦ compile_fields-other j ps globs globs' d.1 (rw (n, compile_fields) at e)
    | inr (p, s) ↦
        let (g, compiled, e') =
          >>=-eq-ok (must_compile lib p ("/" ∷ [])) _ (rw (s, compile_fields) at e) in
        compile_fields-other j ps (insert k g globs) globs' d.1 e'
        ∙ (lookup-insert k j g globs ∙ rw (beq_ne k j (λ q. d.0 (sym q))))
  ]

  fresh_insert :
      (k : String) (g : lib.Glob) (ps : Fields) (globs : List (String × lib.Glob))
      → AllFields (λ j w. k ≢ j) ps
      → AllFields (λ j w. lookup j globs ≡ none) ps
      → AllFields (λ j w. lookup j (insert k g globs) ≡ none) ps
  fresh_insert k g end globs d f = tt
  fresh_insert k g (field j w ps) globs d f =
      (lookup-insert k j g globs ∙ rw (beq_ne k j d.0) f.0, fresh_insert k g ps globs d.1 f.1)

  compile_fields-Holds :
      (ps : Fields) (globs globs' : List (String × lib.Glob))
      → Distinct ps
      → AllFields (λ j w. lookup j globs ≡ none) ps
      → compile_fields lib ps globs ≡ ok globs'
      → AllFields (λ k v. Holds (as_string v) (lookup k globs')) ps
  unfolding compile_fields
  compile_fields-Holds end globs globs' d f e = tt
  compile_fields-Holds (field k v ps) globs globs' d f e = elim (Option-cases (as_string v)) [
    | inl n ↦
        let e' : compile_fields lib ps globs ≡ ok globs' = rw (n, compile_fields) at e in
        (
          subst (λ o. Holds o (lookup k globs')) (sym n)
              (compile_fields-other k ps globs globs' d.0 e' ∙ f.0),
          compile_fields-Holds ps globs globs' d.1 f.1 e',
        )
    | inr (p, s) ↦
        let (g, compiled, e') =
          >>=-eq-ok (must_compile lib p ("/" ∷ [])) _ (rw (s, compile_fields) at e) in
        (
          subst (λ o. Holds o (lookup k globs')) (sym s)
              (
                g,
                compile_fields-other k ps (insert k g globs) globs' d.0 e'
                    ∙ (lookup-insert k k g globs ∙ rw (beq_refl k)),
                must_compile_inv lib p ("/" ∷ []) g compiled,
              ),
          compile_fields-Holds ps (insert k g globs) globs' d.1 (fresh_insert k g ps globs d.0 f.1)
              e',
        )
  ]

  glob_iff :
      (p : String) (g : lib.Glob) (v w : Value) (o : Option Value)
      → lib.compile p ("/" ∷ []) ≡ some g
      → (param_match lib (some g) v o w ≡ ok true)
        ↔ ((s : String) × (o ≡ some (str s)) × Matches lib ("/" ∷ []) s p)
  unfolding param_match
  glob_iff p g v w none c = (λ e. absurd (cc), λ h. absurd (let q = h.1 in cc))
  glob_iff p g v w (some (str s)) c =
      (λ e. (s, refl, (g, c, ok-injective e)), λ (s', e, (g', c', m)). ground arith)
  glob_iff p g v w (some _) c = (λ e. absurd (cc), λ h. absurd (let q = h.1 in cc))

  param_iff :
      (op : Option String) (og : Option lib.Glob) (k : String) (v : Value) (req : Fields)
      → Holds op og
      → (param_match lib og v (get k req) (get_or_nil k req) ≡ ok true) ↔ Agrees op req k v
  param_iff none og k v req h = rw h (unfold param_match in ((λ e. e), (λ e. e)))
  param_iff (some p) og k v req (g, e, c) = rw e (glob_iff p g v (get_or_nil k req) (get k req) c)

  both_iff :
      (m rest : Result Bool) {A B : Type 0}
      → ((m ≡ ok true) ↔ A)
      → ((rest ≡ ok true) ↔ B)
      → ((m >>= λ same. if same then rest else ok false) ≡ ok true) ↔ (A × B)
  both_iff (ok true) rest h k = ((λ e. (h.0 refl, k.0 e)), λ p. k.1 p.1)
  both_iff (ok false) rest h k = ((λ e. absurd (cc)), λ p. absurd (let q = h.1 p.0 in cc))
  both_iff (panic f) rest h k = ((λ e. absurd (cc)), λ p. absurd (let q = h.1 p.0 in cc))

  match_fields_iff :
      (globs : List (String × lib.Glob)) (ps req : Fields)
      → AllFields (λ k v. Holds (as_string v) (lookup k globs)) ps
      → (match_fields lib globs ps req ≡ ok true)
        ↔ AllFields (λ k v. Agrees (as_string v) req k v) ps
  unfolding match_fields
  match_fields_iff globs end req h = ((λ e. tt), λ a. refl)
  match_fields_iff globs (field k v ps) req h =
      both_iff (param_match lib (lookup k globs) v (get k req) (get_or_nil k req))
        (match_fields lib globs ps req) (param_iff (as_string v) (lookup k globs) k v req h.0)
        (match_fields_iff globs ps req h.1)

  fresh_nil : (ps : Fields) → AllFields (λ j w. lookup {V = lib.Glob} j [] ≡ none) ps
  unfolding lookup
  fresh_nil end = tt
  fresh_nil (field k v ps) = (refl, fresh_nil ps)

  -- A rule with a map of parameters, compiled from the configuration file, matches a request whose
  -- parameters are a map exactly when each parameter of the rule agrees: a text is a pattern that
  -- matches a text of the request under the same key, and any other value equals the request's.
  pub compile_fields-match_fields_iff :
      (ps req : Fields) (globs : List (String × lib.Glob))
      → Distinct ps
      → compile_fields lib ps [] ≡ ok globs
      → (match_fields lib globs ps req ≡ ok true)
        ↔ AllFields (λ k v. Agrees (as_string v) req k v) ps
  compile_fields-match_fields_iff ps req globs d e =
      match_fields_iff globs ps req (compile_fields-Holds ps [] globs d (fresh_nil ps) e)
