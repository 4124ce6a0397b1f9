-- ===== src/HttpUtils/Reader/Laws.antt =====
-- Bodies that are read to their end: `reusableReader` of http_utils.go.
use cosmoguard.Prelude.{ℕ, zero, suc, ◌≤◌, ◌<◌, ◌≡◌, refl, ap, [], ◌∷◌, ◌++◌, arith, length}
use mathlib.Core.List.{append-nil, append_assoc}
use cosmoguard.Go.{Bytes}
use cosmoguard.HttpUtils.Reader.{reusable_reader, split_at, read_all}

-- A split keeps all bytes, and takes one at least.
split_at-append : (n : ℕ) (bs : Bytes) → (split_at n bs).0 ++ (split_at n bs).1 ≡ bs
unfolding split_at
split_at-append zero bs = refl
split_at-append (suc n) [] = refl
split_at-append (suc n) (b ∷ bs) = ap (◌∷◌ b) (split_at-append n bs)

length-split_at : (n : ℕ) (bs : Bytes) → length (split_at n bs).1 ≤ length bs
unfolding split_at
length-split_at zero bs = omega arith
length-split_at (suc n) [] = omega arith
length-split_at (suc n) (b ∷ bs) = omega (arith, length-split_at n bs)

-- Reading ends, returns what was to be read, and puts all that was ever read back.
read_all-from :
    (room : ℕ → ℕ) (fuel : ℕ) (todo done got : Bytes)
    → length todo < fuel
    → read_all room fuel (record { read_buf = todo; back_buf = done }) got
      ≡ (reusable_reader (done ++ todo), got ++ todo)
unfolding read_all reusable_reader split_at
read_all-from room zero todo done got h = elim h [ ]
read_all-from room (suc f) [] done got h = ground (arith, append-nil done, append-nil got)
read_all-from room (suc f) (b ∷ bs) done got h =
    rw
      (read_all-from room f rest (done ++ b ∷ taken) (got ++ b ∷ taken)
        (omega (arith, length-split_at (room f) bs)))
      (rw (
        append_assoc done (b ∷ taken) rest,
        append_assoc got (b ∷ taken) rest,
        split_at-append (room f) bs,
      ))
  where
    taken : Bytes
    taken = (split_at (room f) bs).0

    rest : Bytes
    rest = (split_at (room f) bs).1

-- Reading the body to its end returns the whole body and leaves the reader as it was, whatever room
-- the reads have; one read more than the body has bytes is enough.
pub read_all_restores :
    (room : ℕ → ℕ) (fuel : ℕ) (content : Bytes)
    → length content < fuel
    → read_all room fuel (reusable_reader content) [] ≡ (reusable_reader content, content)
unfolding reusable_reader
read_all_restores room fuel content h = read_all-from room fuel content [] [] h
