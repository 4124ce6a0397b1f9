-- ===== src/Config/Unset.antt =====
-- The rules whose priority the file leaves out: config.go.
use cosmoguard.Prelude.{
  true, ◌⊎◌, inl, inr, Bool-cases, ◌≡◌, ◌≢◌, refl, sym, ap, ◌∙◌, false, List, [], ◌∷◌, map, All,
  if◌then◌else◌, nat_eq, ◌==◌, Option, String, none, some,
}
use cosmoguard.Go.{ok, >>=-eq-ok, ok-injective, int_lt, Bytes}
use cosmoguard.Cache.{Error, Found, found, failed}
use cosmoguard.Rules.Http
use cosmoguard.Rules.Http.{HttpRule}
use cosmoguard.Config.{
  Config, ConfigDeps, prepare_http, prepare_all, Read, read, read_config_from_file, load, finish,
  prepare_grpc, prepare_json_rpc,
}
use cosmoguard.Config.Priority.{Ascending, Sorts, prepare-Ascending}
use cosmoguard.Config.Lists.{http_keeps}

-- What `defaults.Set` makes of a rule, by the tag of its priority.
abbrev pub with_default : {Glob : Type 0} → HttpRule Glob → HttpRule Glob
with_default r = record r { priority = if r.priority == 0 then 1000 else r.priority }

read-injective :
    {Glob : Type 0} {a b : Config Glob} {e f : Option Error}
    → ◌≡◌ {A = Read Glob} (read a e) (read b f)
    → a ≡ b
read-injective h = cc

-- Behind a rule with a positive priority there is none whose priority is left out.
abbrev pub UnsetFirst : {Glob : Type 0} → List (HttpRule Glob) → Type 0
UnsetFirst [] = Unit
UnsetFirst (r ∷ rs) = ((int_lt 0 r.priority ≡ false) ⊎ All (λ q. q.priority ≢ 0) rs) × UnsetFirst rs

behind_positive :
    {Glob : Type 0} (r : HttpRule Glob) (qs : List (HttpRule Glob))
    → int_lt 0 r.priority ≡ true
    → All (λ p. int_lt p r.priority ≡ false) (map (λ q. q.priority) qs)
    → All (λ q. q.priority ≢ 0) qs
behind_positive r [] pos k = tt
behind_positive r (q ∷ qs) pos k = (
  λ z. absurd (let h = ap (λ n. int_lt n r.priority) (sym z) ∙ k.0 in cc),
  behind_positive r qs pos k.1,
)

Ascending-UnsetFirst :
    {Glob : Type 0} (rs : List (HttpRule Glob))
    → Ascending (map (λ q. q.priority) rs)
    → UnsetFirst rs
Ascending-UnsetFirst [] h = tt
Ascending-UnsetFirst (r ∷ rs) h = (
  elim (Bool-cases (int_lt 0 r.priority)) [
    | inl pos ↦ inr (behind_positive r rs pos h.0)
    | inr low ↦ inl low
  ],
  Ascending-UnsetFirst rs h.1,
)

module _ (d : ConfigDeps) (sorts : Sorts d.sort) where
  prepare_all-lcd :
      (c out : Config d.globs.Glob)
      → prepare_all d c ≡ ok out
      → (rs : List (HttpRule d.globs.Glob)) × (prepare_http d c.lcd.rules ≡ ok rs)
        × (out.lcd.rules ≡ rs)
  unfolding prepare_all
  prepare_all-lcd c out e =
      let (lcd, p1, e1) = >>=-eq-ok (prepare_http d c.lcd.rules) _ e in
      let (grpc, p2, e2) = >>=-eq-ok (prepare_grpc d c.grpc.rules) _ e1 in
      let (rpc, p3, e3) = >>=-eq-ok (prepare_http d c.rpc.rules) _ e2 in
      let (json_rpc, p4, e4) = >>=-eq-ok (prepare_json_rpc d c.rpc.json_rpc.rules) _ e3 in
      let (evm, p5, e5) = >>=-eq-ok (prepare_json_rpc d c.evm.rpc.rules) _ e4 in
      let (evm_http, p6, e6) = >>=-eq-ok (prepare_http d c.evm.rpc.http_rules) _ e5 in
      let (evm_ws, p7, e7) = >>=-eq-ok (prepare_json_rpc d c.evm.ws.rules) _ e6 in
      (lcd, p1, ap (λ (x : Config d.globs.Glob). x.lcd.rules) (sym (ok-injective e7)))

  -- The rules of the file, compiled and sorted.
  prepare_http-UnsetFirst :
      (rules rs : List (HttpRule d.globs.Glob)) → prepare_http d rules ≡ ok rs → UnsetFirst rs
  unfolding prepare_http
  prepare_http-UnsetFirst rules rs e = Ascending-UnsetFirst rs (
      prepare-Ascending d sorts (λ r. r.priority) (Http.compile d.globs) (http_keeps d.globs) rules
        rs e)

  module _
      (fills : (c : Config d.globs.Glob)
        → (d.set_defaults c).0.lcd.rules ≡ map with_default c.lcd.rules)
      (cfg : Config d.globs.Glob) (err : Option Error) where
    -- The rules that came out, from a file with these bytes.
    abbrev pub Loaded : Bytes → Type 0
    Loaded f =
        (c : Config d.globs.Glob) × (rs : List (HttpRule d.globs.Glob)) × (d.unmarshal f
          ≡ (c, none))
        × (prepare_http d c.lcd.rules ≡ ok rs)
        × (cfg.lcd.rules ≡ map with_default rs)
        × UnsetFirst rs

    finish-Loaded :
        (f : Bytes) (c : Config d.globs.Glob) (e : Option Error)
        → d.unmarshal f ≡ (c, e)
        → finish d c e ≡ ok (read cfg err)
        → Loaded f
    unfolding finish
    finish-Loaded f c (some e) u h = absurd (cc)
    finish-Loaded f c none u h =
        let (out, p, h1) = >>=-eq-ok (prepare_all d c) _ h in
        let (rs, sorted, same) = prepare_all-lcd c out p in
        (
          c,
          rs,
          u,
          sorted,
          ap (λ (x : Config d.globs.Glob). x.lcd.rules) (read-injective (sym (ok-injective h1)))
              ∙ fills out
              ∙ ap (map with_default) same,
          prepare_http-UnsetFirst c.lcd.rules rs sorted,
        )

    load-Loaded :
        (f : Found Bytes)
        → load d f ≡ ok (read cfg err)
        → (bytes : Bytes) × (f ≡ found bytes) × Loaded bytes
    unfolding load
    load-Loaded (failed e) h = absurd (cc)
    load-Loaded (found f) h = (f, refl, finish-Loaded f (d.unmarshal f).0 (d.unmarshal f).1 refl h)

  -- The LCD rules of a configuration that was read are those of the file, compiled and sorted, with
  -- the priorities that the file leaves out set to 1000 only after that: so a rule without a priority
  -- comes before every rule with a positive one. `sort.Slice` is taken to sort, and `defaults.Set` to
  -- fill in the priorities that are 0.
  pub read_config_from_file-UnsetFirst :
      ((c : Config d.globs.Glob) → (d.set_defaults c).0.lcd.rules ≡ map with_default c.lcd.rules)
      → (path : String) (cfg : Config d.globs.Glob) (err : Option Error)
      → read_config_from_file d path ≡ ok (read cfg err)
      → (f : Bytes) × (d.read_file path ≡ found f)
        × (c : Config d.globs.Glob) × (rs : List (HttpRule d.globs.Glob)) × (d.unmarshal f
            ≡ (c, none))
        × (prepare_http d c.lcd.rules ≡ ok rs)
        × (cfg.lcd.rules ≡ map with_default rs)
        × UnsetFirst rs
  unfolding read_config_from_file
  read_config_from_file-UnsetFirst fills path cfg err e =
      let (f, found_it, l) = load-Loaded fills cfg err (d.read_file path) e in
      (f, found_it, l.0, l.1, l.2, l.3, l.4, l.5)
