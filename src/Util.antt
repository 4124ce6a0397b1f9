-- ===== src/Util.antt =====
-- pkg/util: the hash of the cache keys and the generator of unique ids.
pub mod UniqueId
pub mod Separator
use Prim.Native.Char.{Char}
use Prim.Native.String
use cosmoguard.Prelude.{ℕ, zero, suc, ◌/◌, ◌%◌, List, [], ◌∷◌, String}
use cosmoguard.Go.{Bytes}

nth : ℕ → String → Char
nth i String.[] = "0"
nth zero (String.◌∷◌ c s) = c
nth (suc i) (String.◌∷◌ c s) = nth i s

-- `hex.EncodeToString`.
unfoldable pub hex_encode : Bytes → String
unfolding nth
hex_encode [] = ""
hex_encode (b ∷ bs) =
    String.◌∷◌ (nth (b / 16) "0123456789abcdef")
      (String.◌∷◌ (nth (b % 16) "0123456789abcdef") (hex_encode bs))

-- `Sha256` of hash.go; the digest of crypto/sha256 is a parameter.
unfoldable pub sha256 : (Bytes → Bytes) → Bytes → String
unfolding hex_encode
sha256 sum content = hex_encode (sum content)
