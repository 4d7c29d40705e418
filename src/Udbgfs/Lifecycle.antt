-- ===== src/Udbgfs/Lifecycle.antt =====
-- Set-up and removal of the debugfs files and of the print buffer.
use uprobe_tests.Base.{
  ℕ, ◌+◌, ◌<◌, String, ◌≡◌, ◌≢◌, none, arith, ◌==◌, ◌⊎◌, inl, inr, Bool-cases, pos, minus_one,
}
use uprobe_tests.Kernel.{Trace, Kernel, World}
use uprobe_tests.Kernel.Count.{allocs, frees, entries, removes}
use uprobe_tests.Udbgfs.{u_dbfs_init, u_dbfs_cleanup}

-- Between the two traces as many blocks were handed out at each address as were freed, and as many
-- debugfs entries created as removed.
pub record IsBalanced (before after : Trace) : Type 0 where
  pub memory : (p : ℕ) → allocs p after + frees p before ≡ allocs p before + frees p after
  pub files : (d : ℕ) → entries d after + removes d before ≡ entries d before + removes d after

module _ (K : Kernel) (path : String) (w : World) where
  -- If `u_dbfs_init` succeeds, `u_dbfs_cleanup` frees and removes all that it made,
  -- and nothing else; the print buffer is gone, and no NULL pointer was followed.
  pub u_dbfs_cleanup-u_dbfs_init :
      (u_dbfs_init K path w).0 ≡ pos 0
      → IsBalanced w.trace (u_dbfs_cleanup (u_dbfs_init K path w).1).1.trace
        × ((u_dbfs_cleanup (u_dbfs_init K path w).1).1.print_buf ≡ none)
        × ((u_dbfs_cleanup (u_dbfs_init K path w).1).1.oops ≡ w.oops)
  unfolding u_dbfs_init u_dbfs_cleanup allocs frees entries removes
  u_dbfs_cleanup-u_dbfs_init ok =
      (record { memory = λ p. ground arith; files = λ d. ground arith }, ground arith, ground arith)

module _ (K : Kernel) (path : String) (w : World) where
  -- What a failure leaves behind once the directory and the file `data` are made.
  pub record LeftBehind : Type 0 where
    pub answer : (u_dbfs_init K path w).0 ≡ minus_one
    pub memory :
        (p : ℕ)
        → allocs p (u_dbfs_init K path w).1.trace + frees p w.trace
          ≡ allocs p w.trace + frees p (u_dbfs_init K path w).1.trace
    pub none_removed : (d : ℕ) → removes d (u_dbfs_init K path w).1.trace ≡ removes d w.trace
    pub dir_left :
        entries (u_dbfs_init K path w).1.dir w.trace
        < entries (u_dbfs_init K path w).1.dir (u_dbfs_init K path w).1.trace
    pub file_left :
        entries (u_dbfs_init K path w).1.data_file w.trace
        < entries (u_dbfs_init K path w).1.data_file (u_dbfs_init K path w).1.trace

  left_behind :
      (u_dbfs_init K path w).0 ≢ pos 0
      → (u_dbfs_init K path w).1.dir ≢ 0
      → (u_dbfs_init K path w).1.data_file ≢ 0
      → LeftBehind
  unfolding u_dbfs_init allocs frees entries removes
  left_behind fails has_dir has_file = record {
    answer = ground arith;
    memory = λ p. ground arith;
    none_removed = λ d. ground arith;
    dir_left = ground arith;
    file_left = ground arith;
  }

  nothing_left :
      (u_dbfs_init K path w).0 ≢ pos 0
      → ((u_dbfs_init K path w).1.dir ≡ 0) ⊎ ((u_dbfs_init K path w).1.data_file ≡ 0)
      → IsBalanced w.trace (u_dbfs_init K path w).1.trace
  unfolding u_dbfs_init allocs frees entries removes
  nothing_left fails early = record { memory = λ p. ground arith; files = λ d. ground arith }

  -- If `u_dbfs_init` does not answer 0, then either the directory or the file `data` could not be made,
  -- and nothing is left behind; or both were made, it answers -1 and has freed what it allocated, but
  -- has removed neither of the two: both are left in debugfs.
  pub u_dbfs_init_fails :
      (u_dbfs_init K path w).0 ≢ pos 0
      → ((((u_dbfs_init K path w).1.dir ≡ 0) ⊎ ((u_dbfs_init K path w).1.data_file ≡ 0))
          × IsBalanced w.trace (u_dbfs_init K path w).1.trace)
        ⊎ LeftBehind
  u_dbfs_init_fails fails = elim (Bool-cases ((u_dbfs_init K path w).1.dir == 0)) [
    | inl no_dir ↦ let early = inl (ground (arith, no_dir)) in inl (early, nothing_left fails early)
    | inr dir ↦ elim (Bool-cases ((u_dbfs_init K path w).1.data_file == 0)) [
      | inl no_file ↦
          let early = inr (ground (arith, no_file)) in inl (early, nothing_left fails early)
      | inr file ↦ inr (left_behind fails (ground (arith, dir)) (ground (arith, file)))
    ]
  ]
