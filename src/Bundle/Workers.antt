-- ===== src/Bundle/Workers.antt =====
-- The thread pool of `_extract_zip`: workers that copy their members at once and share the count of
-- bytes. A worker counts a chunk under the lock, tests the count without it, and then writes. A step
-- of the pool is one of these actions of one worker, in any order.
use zcc_analysis.Common.{ℕ, ◌+◌, ◌≤◌, ◌<◌, ◌≡◌, arith, List, [], ◌∷◌, ◌++◌}

-- Between two actions a worker has nothing in hand, a chunk that is counted, a chunk that passed the
-- test, or has raised `BundleSecurityError`.
pub data Phase : Type 0 where
  idle : Phase
  counted : ℕ → Phase
  cleared : ℕ → Phase
  stopped : Phase

pub record Pool : Type 0 where
  pub workers : List Phase
  pub bytes_written : ℕ
  pub on_disk : ℕ

pub data Step (max_total : ℕ) : Pool → Pool → Type 0 where
  count_chunk :
      (xs ys : List Phase) (n bytes disk : ℕ)
      → Step max_total
          (record { workers = xs ++ idle ∷ ys; bytes_written = bytes; on_disk = disk })
          (record { workers = xs ++ counted n ∷ ys; bytes_written = bytes + n; on_disk = disk })
  pass :
      (xs ys : List Phase) (n bytes disk : ℕ)
      → bytes ≤ max_total
      → Step max_total
          (record { workers = xs ++ counted n ∷ ys; bytes_written = bytes; on_disk = disk })
          (record { workers = xs ++ cleared n ∷ ys; bytes_written = bytes; on_disk = disk })
  stop :
      (xs ys : List Phase) (n bytes disk : ℕ)
      → max_total < bytes
      → Step max_total
          (record { workers = xs ++ counted n ∷ ys; bytes_written = bytes; on_disk = disk })
          (record { workers = xs ++ stopped ∷ ys; bytes_written = bytes; on_disk = disk })
  -- the limit of the member, on a count that the worker keeps for itself
  stop_member :
      (xs ys : List Phase) (n bytes disk : ℕ)
      → Step max_total
          (record { workers = xs ++ counted n ∷ ys; bytes_written = bytes; on_disk = disk })
          (record { workers = xs ++ stopped ∷ ys; bytes_written = bytes; on_disk = disk })
  write :
      (xs ys : List Phase) (n bytes disk : ℕ)
      → Step max_total
          (record { workers = xs ++ cleared n ∷ ys; bytes_written = bytes; on_disk = disk })
          (record { workers = xs ++ idle ∷ ys; bytes_written = bytes; on_disk = disk + n })

pub data Reach (max_total : ℕ) (s : Pool) : Pool → Type 0 where
  here : Reach max_total s s
  next : {t u : Pool} → Reach max_total s t → Step max_total t u → Reach max_total s u

-- The bytes that workers have in hand: all, and those that passed the test.
unfoldable pub in_hand : List Phase → ℕ
in_hand [] = 0
in_hand (idle ∷ ps) = in_hand ps
in_hand (counted n ∷ ps) = n + in_hand ps
in_hand (cleared n ∷ ps) = n + in_hand ps
in_hand (stopped ∷ ps) = in_hand ps

unfoldable pub passed : List Phase → ℕ
passed [] = 0
passed (idle ∷ ps) = passed ps
passed (counted n ∷ ps) = passed ps
passed (cleared n ∷ ps) = n + passed ps
passed (stopped ∷ ps) = passed ps

pub record IsSafe (max_total : ℕ) (s : Pool) : Type 0 where
  pub counted_first : s.on_disk + in_hand s.workers ≤ s.bytes_written
  pub capped : s.on_disk + passed s.workers ≤ max_total

in_hand-append : (xs ys : List Phase) → in_hand (xs ++ ys) ≡ in_hand xs + in_hand ys
unfolding in_hand
in_hand-append [] ys = omega arith
in_hand-append (idle ∷ xs) ys = omega (arith, in_hand-append xs ys)
in_hand-append (counted n ∷ xs) ys = omega (arith, in_hand-append xs ys)
in_hand-append (cleared n ∷ xs) ys = omega (arith, in_hand-append xs ys)
in_hand-append (stopped ∷ xs) ys = omega (arith, in_hand-append xs ys)

passed-append : (xs ys : List Phase) → passed (xs ++ ys) ≡ passed xs + passed ys
unfolding passed
passed-append [] ys = omega arith
passed-append (idle ∷ xs) ys = omega (arith, passed-append xs ys)
passed-append (counted n ∷ xs) ys = omega (arith, passed-append xs ys)
passed-append (cleared n ∷ xs) ys = omega (arith, passed-append xs ys)
passed-append (stopped ∷ xs) ys = omega (arith, passed-append xs ys)

passed-le-in_hand : (xs : List Phase) → passed xs ≤ in_hand xs
unfolding passed in_hand
passed-le-in_hand [] = omega arith
passed-le-in_hand (idle ∷ xs) = omega (arith, passed-le-in_hand xs)
passed-le-in_hand (counted n ∷ xs) = omega (arith, passed-le-in_hand xs)
passed-le-in_hand (cleared n ∷ xs) = omega (arith, passed-le-in_hand xs)
passed-le-in_hand (stopped ∷ xs) = omega (arith, passed-le-in_hand xs)

Step-IsSafe :
    {max_total : ℕ} {s t : Pool} → Step max_total s t → IsSafe max_total s → IsSafe max_total t
unfolding in_hand passed
Step-IsSafe (count_chunk xs ys n bytes disk) h = omega (
  arith,
  in_hand-append xs (idle ∷ ys),
  in_hand-append xs (counted n ∷ ys),
  passed-append xs (idle ∷ ys),
  passed-append xs (counted n ∷ ys),
  passed-le-in_hand xs,
  passed-le-in_hand ys,
)
Step-IsSafe (pass xs ys n bytes disk le) h = omega (
  arith,
  in_hand-append xs (counted n ∷ ys),
  in_hand-append xs (cleared n ∷ ys),
  passed-append xs (counted n ∷ ys),
  passed-append xs (cleared n ∷ ys),
  passed-le-in_hand xs,
  passed-le-in_hand ys,
)
Step-IsSafe (stop xs ys n bytes disk lt) h = omega (
  arith,
  in_hand-append xs (counted n ∷ ys),
  in_hand-append xs (stopped ∷ ys),
  passed-append xs (counted n ∷ ys),
  passed-append xs (stopped ∷ ys),
  passed-le-in_hand xs,
  passed-le-in_hand ys,
)
Step-IsSafe (stop_member xs ys n bytes disk) h = omega (
  arith,
  in_hand-append xs (counted n ∷ ys),
  in_hand-append xs (stopped ∷ ys),
  passed-append xs (counted n ∷ ys),
  passed-append xs (stopped ∷ ys),
  passed-le-in_hand xs,
  passed-le-in_hand ys,
)
Step-IsSafe (write xs ys n bytes disk) h = omega (
  arith,
  in_hand-append xs (cleared n ∷ ys),
  in_hand-append xs (idle ∷ ys),
  passed-append xs (cleared n ∷ ys),
  passed-append xs (idle ∷ ys),
  passed-le-in_hand xs,
  passed-le-in_hand ys,
)

-- In every order in which the workers of a pool may act, the bytes on disk, with those that passed
-- the test and are about to be written, stay within the total limit.
pub Reach-IsSafe :
    {max_total : ℕ} {s t : Pool} → IsSafe max_total s → Reach max_total s t → IsSafe max_total t
Reach-IsSafe h here = h
Reach-IsSafe h (next r st) = Step-IsSafe st (Reach-IsSafe h r)
