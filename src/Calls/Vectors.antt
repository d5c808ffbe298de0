-- ===== src/Calls/Vectors.antt =====
-- kernel/source/system/syscall/vfs.cpp: `readv`, `writev`, `preadv` and `pwritev`. The table of buffers
-- lies in the memory of the process and is read anew in each round.
use ilobilix.Base.{
  ℕ, zero, suc, ◌+◌, ◌*◌, ◌^◌, ◌==◌, List, [], ◌∷◌, if◌then◌else◌, length, ℤ, pos, negsuc, u64,
}
use ilobilix.Files.{Ops, Call, ◌>>=◌, ◌>>◌, pure, file_read, file_write, file_pread, file_pwrite}
use ilobilix.Calls.{copy_to_user, copy_from_user, readable, writable, accessed, modified}

-- The number that bytes stand for, the lowest first.
abbrev pub word : List ℕ → ℕ
word [] = 0
word (b ∷ bytes) = b + word bytes * 2 ^ 8

-- The rounds of `for (int i = 0; i < iovcnt; i++)`
abbrev pub rounds : ℤ → ℕ
rounds (pos n) = n
rounds (negsuc n) = 0

module _ {D : Type 0} where
  -- The fields of `iov[i]`, which has 16 bytes.
  unfoldable pub iov_base : ℕ → ℕ → Call D ℕ
  iov_base iov i = do bytes ← copy_from_user (iov + 16 * i) 8; pure (word bytes)

  unfoldable pub iov_len : ℕ → ℕ → Call D ℕ
  iov_len iov i = do bytes ← copy_from_user (iov + 16 * i + 8) 8; pure (word bytes)

  module _ (ops : Ops D) (f iov : ℕ) where
    unfoldable pub readv_loop : ℕ → ℕ → ℕ → Call D ℕ
    unfolding iov_base iov_len file_read
    readv_loop zero i total = pure total
    readv_loop (suc n) i total = do
      base ← iov_base iov i
      len ← iov_len iov i
      bytes ← file_read ops f len
      (if length bytes == 0
          then pure total
          else (copy_to_user base bytes >> readv_loop n (i + 1) (u64 (total + length bytes))))

    unfoldable pub preadv_loop : ℕ → ℕ → ℕ → ℕ → Call D ℕ
    unfolding iov_base iov_len file_pread
    preadv_loop zero i offset total = pure total
    preadv_loop (suc n) i offset total = do
      base ← iov_base iov i
      len ← iov_len iov i
      bytes ← file_pread ops f offset len
      (if length bytes == 0
          then pure total
          else (copy_to_user base bytes
              >> preadv_loop n (i + 1) (u64 (offset + length bytes)) (u64 (total + length bytes))))

    unfoldable pub writev_loop : ℕ → ℕ → ℕ → Call D ℕ
    unfolding iov_base iov_len file_write
    writev_loop zero i total = pure total
    writev_loop (suc n) i total = do
      base ← iov_base iov i
      len ← iov_len iov i
      bytes ← copy_from_user base len
      ret ← file_write ops f bytes
      writev_loop n (i + 1) (u64 (total + ret))

    unfoldable pub pwritev_loop : ℕ → ℕ → ℕ → ℕ → Call D ℕ
    unfolding iov_base iov_len file_pwrite
    pwritev_loop zero i offset total = pure total
    pwritev_loop (suc n) i offset total = do
      base ← iov_base iov i
      len ← iov_len iov i
      bytes ← copy_from_user base len
      ret ← file_pwrite ops f offset bytes
      pwritev_loop n (i + 1) (u64 (offset + ret)) (u64 (total + ret))

  module _ (ops : Ops D) where
    unfoldable pub readv : ℤ → ℕ → ℤ → Call D ℕ
    unfolding readable readv_loop accessed
    readv fd iov iovcnt = do
      f ← readable fd
      total ← readv_loop ops f iov (rounds iovcnt) 0 0
      accessed f
      pure total

    unfoldable pub preadv : ℤ → ℕ → ℤ → ℕ → Call D ℕ
    unfolding readable preadv_loop accessed
    preadv fd iov iovcnt offset = do
      f ← readable fd
      total ← preadv_loop ops f iov (rounds iovcnt) 0 offset 0
      accessed f
      pure total

    unfoldable pub writev : ℤ → ℕ → ℤ → Call D ℕ
    unfolding writable writev_loop modified
    writev fd iov iovcnt = do
      f ← writable fd
      total ← writev_loop ops f iov (rounds iovcnt) 0 0
      modified f
      pure total

    unfoldable pub pwritev : ℤ → ℕ → ℤ → ℕ → Call D ℕ
    unfolding writable pwritev_loop modified
    pwritev fd iov iovcnt offset = do
      f ← writable fd
      total ← pwritev_loop ops f iov (rounds iovcnt) 0 offset 0
      modified f
      pure total
