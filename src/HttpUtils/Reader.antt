-- ===== src/HttpUtils/Reader.antt =====
-- `reusableReader` of http_utils.go: the body of a request, which can be read again after its end.
pub mod Laws
use cosmoguard.Prelude.{ℕ, zero, suc, List, [], ◌∷◌, ◌++◌, Bool, true, false}
use cosmoguard.Go.{Bytes}

pub record Reader : Type 0 where
  pub read_buf : Bytes
  pub back_buf : Bytes

-- `ReusableReader` drains the original body.
unfoldable pub reusable_reader : Bytes → Reader
reusable_reader content = record { read_buf = content; back_buf = [] }

-- A read of `bytes.Buffer` into `n` bytes: what is read, and what stays.
unfoldable pub split_at : ℕ → Bytes → Bytes × Bytes
split_at zero bs = ([], bs)
split_at (suc n) [] = ([], [])
split_at (suc n) (b ∷ bs) = let (taken, rest) = split_at n bs in (b ∷ taken, rest)

-- `io.Copy(r.readBuf, r.backBuf)` drains the back buffer.
unfoldable pub reset : Reader → Reader
reset r = record { read_buf = r.read_buf ++ r.back_buf; back_buf = [] }

-- `Read` into a buffer with room for `suc n` bytes: the bytes, and whether this was the end. The
-- `io.TeeReader` copies what is read to the back buffer.
read_from : Bytes → ℕ → Reader → Reader × Bytes × Bool
read_from [] n r = (reset r, [], true)
read_from (b ∷ bs) n r =
    let (taken, rest) = split_at (suc n) (b ∷ bs) in
    (record { read_buf = rest; back_buf = r.back_buf ++ taken }, taken, false)

unfoldable pub read : ℕ → Reader → Reader × Bytes × Bool
unfolding read_from reset split_at
read n r = read_from r.read_buf n r

-- `io.ReadAll`: reads until the end. Its buffer always has room; how much before each read is up to
-- the run-time system. The fuel bounds the number of reads.
unfoldable pub read_all : (ℕ → ℕ) → ℕ → Reader → Bytes → Reader × Bytes
unfolding read
read_all room zero r got = (r, got)
read_all room (suc fuel) r got =
    let (r', taken, at_end) = read (room fuel) r in
    elim at_end [ true ↦ (r', got) | false ↦ read_all room fuel r' (got ++ taken) ]
