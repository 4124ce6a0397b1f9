-- ===== src/Glob.antt =====
-- github.com/gobwas/glob, which compiles the patterns of the rules: a parameter of the model. A
-- pattern with the separators that its wildcard `*` does not cross compiles to a glob, or is refused.
use Prim.Native.Char.{Char}
use cosmoguard.Prelude.{String, Bool, List, [], ◌∷◌, Option, none, some}
use cosmoguard.Go.{Result, ok, panic, ◌>>=◌, bad_pattern}

pub record Globs : Type 1 where
  pub Glob : Type 0
  pub compile : String → List Char → Option Glob
  pub matches : Glob → String → Bool

module _ (lib : Globs) where
  -- `glob.MustCompile` panics on a pattern that is refused.
  unfoldable pub must_compile : String → List Char → Result lib.Glob
  must_compile p seps = elim (lib.compile p seps) [ none ↦ panic bad_pattern | some g ↦ ok g ]

  -- The loop `for i, p := range patterns { globs[i] = glob.MustCompile(p, seps...) }`.
  unfoldable pub compile_all : List Char → List String → Result (List lib.Glob)
  unfolding must_compile
  compile_all seps [] = ok []
  compile_all seps (p ∷ ps) = do g ← must_compile p seps; gs ← compile_all seps ps; ok (g ∷ gs)
