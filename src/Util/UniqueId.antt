-- ===== src/Util/UniqueId.antt =====
-- `UniqueID` of pkg/util/id_gen.go. The numbers of `rand.Intn` are a list.
pub mod Laws
use cosmoguard.Prelude.{
  ℕ, suc, ◌%◌, ◌^◌, ◌-◌, ◌≡◌, List, [], ◌∷◌, Bool, true, false, String, Option, none, some, lookup,
  insert, string_eq, if◌then◌else◌,
}
use cosmoguard.Go.{itoa}

-- `generated`: the ids ever made, `true` while they are in use.
abbrev pub UniqueId : Type 0
UniqueId = List (String × Bool)

-- `!ok || !v`, of `Load`.
abbrev pub is_free : Option Bool → Bool
is_free none = true
is_free (some true) = false
is_free (some false) = true

-- The loop of `ID`, over the numbers drawn below `math.MaxInt32`; `none` if they do not suffice. No other
-- caller comes between its `Load` and its `Store`.
unfoldable pub id : List ℕ → UniqueId → Option (UniqueId × String)
id [] u = none
id (n ∷ ns) u =
    let rest = id ns u in
    let i = itoa (n % (2 ^ 31 - 1)) in
    if is_free (lookup i u) then some (insert i true u, i) else rest

unfoldable pub release : String → UniqueId → UniqueId
release i u = insert i false u
