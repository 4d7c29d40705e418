-- ===== src/Programs/Forked.antt =====
-- `fork_thread` of fork_thread.c on i386: whether the child inherits the probes decides.
use uprobe_tests.Base.{
  ℕ, zero, suc, ◌+◌, ◌*◌, ◌%◌, ◌∙◌, ◌≤◌, ◌<◌, ◌≡◌, refl, Bool, true, false, [], ◌∷◌, arith, ℤ, pos,
}
use uprobe_tests.Kernel.{Kernel, World}
use uprobe_tests.Slot.{Probed}
use uprobe_tests.Slot.Memory.{i386, cell_mod}
use uprobe_tests.Slot.User.{Outcome}
use uprobe_tests.Slot.Counts.{Ends}
use uprobe_tests.Programs.{
  exit_status, with_table, call_id, rounds, child_loop, waited, fork_thread, world_after,
  child_world,
}
use uprobe_tests.Programs.Tally.{StackApart, Tally, Tally-cong, call_id-Tally}
use uprobe_tests.Programs.Counted.{
  Ends-bind, bind-eq, called_on, after, rounds-Fine, with_table-Tally,
}
use uprobe_tests.Programs.Uncounted.{Quiet, call_id-Quiet, with_table-Quiet, child_loop-Quiet}

waited_lem :
    (status : ℕ) (error : ℤ) (s : Probed) → waited status error s ≡ Outcome.returned (pos status) s
waited_lem zero error s = refl
waited_lem (suc n) error s = ground arith

-- What the thread returns: 1 if its child was counted.
abbrev pub verdict : (inherited : Bool) → (cnt : ℕ) → ℤ
verdict true (suc n) = pos 1
verdict true zero = pos 0
verdict false cnt = pos 0

-- What the module counts for the child, which exits at its first hit.
abbrev pub child_hits : (inherited : Bool) → (cnt : ℕ) → ℕ
child_hits true (suc n) = 1
child_hits true zero = 0
child_hits false cnt = 0

world_after-holds :
    (Q : World → Type 0) (P : ℤ → Probed → Type 0) (s : Probed) (o : Outcome)
    (f : ℤ → Probed → World)
    → Ends P o
    → ((v : ℤ) (t : Probed) → P v t → Q (f v t))
    → Q (world_after s o f)
world_after-holds Q P s (Outcome.returned v t) f p next = next v t p
world_after-holds Q P s (Outcome.exited _) f p next = absurd p
world_after-holds Q P s Outcome.fault f p next = absurd p
world_after-holds Q P s Outcome.oops f p next = absurd p

module _ (K : Kernel) (tid child sp table : ℕ) (small : tid < cell_mod)
    (small_child : child < cell_mod) (apart : StackApart sp table) where
  child_uncounted :
      (cnt : ℕ) (s : Probed)
      → child_loop K i386 false child sp table cnt (with_table K i386 true tid sp table s)
        ≡ Outcome.exited 0
  child_uncounted cnt s =
      child_loop-Quiet K child sp table small_child apart cnt s _
        (with_table-Quiet K child sp table small_child apart s)

  child_counted :
      (n : ℕ) (s : Probed)
      → child_loop K i386 true child sp table (suc n) (with_table K i386 true tid sp table s)
        ≡ Outcome.exited 1
  unfolding child_loop
  child_counted n s =
      bind-eq _ (call_id K i386 true child sp table 0 (with_table K i386 true tid sp table s)) _ _
        (call_id-Tally K child sp table small_child apart 0 (after 1 0) (after 1 1) 0 s _
          (omega arith) (omega arith) refl (λ j differ. ground (arith, differ))
          (with_table-Tally K child sp table small_child apart 1 s))
        (λ v t (e, y). rw e refl)

  child_status :
      (inherited : Bool) (cnt : ℕ) (s : Probed)
      → pos (
          exit_status (
            child_loop K i386 inherited child sp table cnt (with_table K i386 true tid sp table s)))
        ≡ verdict inherited cnt
  unfolding child_loop
  child_status true zero s = refl
  child_status true (suc n) s = rw (child_counted n s) refl
  child_status false cnt s = rw (child_uncounted cnt s) refl

  child_world-uncounted :
      (n : ℕ) (b s : Probed)
      → Quiet sp table child b s
      → (child_world K i386 false child sp table n s).num_probes % cell_mod
        ≡ b.world.num_probes % cell_mod
  unfolding child_world
  child_world-uncounted zero b s y = y.no_hit
  child_world-uncounted (suc n) b s y =
      world_after-holds (λ w. w.num_probes % cell_mod ≡ b.world.num_probes % cell_mod) _ s
        (call_id K i386 false child sp table 0 s) _
        (call_id-Quiet K child sp table small_child apart 0 b s (omega arith) y)
        (λ v t (e, y1). rw e (child_world-uncounted n b t y1))

  child_world-hits :
      (inherited : Bool) (cnt : ℕ) (s : Probed)
      → (child_world K i386 inherited child sp table cnt
            (with_table K i386 true tid sp table s)).num_probes
          % cell_mod
        ≡ (s.world.num_probes + child_hits inherited cnt) % cell_mod
  unfolding child_world
  child_world-hits true zero s = omega arith
  child_world-hits true (suc n) s =
      world_after-holds (λ w. w.num_probes % cell_mod ≡ (s.world.num_probes + 1) % cell_mod) _
        (with_table K i386 true tid sp table s)
        (call_id K i386 true child sp table 0 (with_table K i386 true tid sp table s)) _
        (call_id-Tally K child sp table small_child apart 0 (after 1 0) (after 1 1) 0 s _
          (omega arith) (omega arith) refl (λ j differ. ground (arith, differ))
          (with_table-Tally K child sp table small_child apart 1 s))
        (λ v t (e, y). rw e (omega (arith, y.hits_counted)))
  child_world-hits false cnt s =
      let none : s.world.num_probes + child_hits false cnt ≡ s.world.num_probes = omega arith in
      child_world-uncounted cnt s (with_table K i386 true tid sp table s)
        (with_table-Quiet K child sp table small_child apart s)
      ∙ rw none refl

  -- The child's hits on top of those of the parent.
  Tally-child :
      (f : ℕ → ℕ) (hits more : ℕ) (w : World) (s t : Probed)
      → w.num_probes % cell_mod ≡ (s.world.num_probes + more) % cell_mod
      → Tally sp table tid f hits (record s { world = w }) t
      → Tally sp table tid f (hits + more) s t
  Tally-child f hits more w s t child_counts y = record {
    slots = y.slots;
    others = y.others;
    hits_counted = omega (arith, y.hits_counted, child_counts);
  }

  -- On i386, with a probe on the function that is called, the parent counts right before and after it
  -- waits, `cnt` calls each time, and `fork_thread` then returns 0 if the child does not inherit the
  -- probes or makes no call, and else 1, since the child exits at the first call that is counted. The
  -- slot and the memory of others are as the parent's calls leave them. The module has counted those
  -- calls, and one hit more if the child inherits the probes and makes a call. There are at most 2 ^ 31
  -- calls, the ids have 32 bits, the stack is outside the table, and the child runs before the parent goes
  -- on.
  pub fork_thread-verdict :
      (inherited : Bool) (cnt : ℕ) (s : Probed)
      → cnt + cnt ≤ 2147483648
      → Ends
          (λ v t.
            (v ≡ verdict inherited cnt)
            × Tally sp table tid
                (called_on 1 (cnt + cnt))
                (cnt + cnt + child_hits inherited cnt)
                s
                t)
          (fork_thread K i386 true inherited tid child sp table cnt s)
  unfolding fork_thread
  fork_thread-verdict inherited cnt s few =
      let w : World =
        child_world K i386 inherited child sp table cnt (with_table K i386 true tid sp table s) in
      let s1 : Probed = record s { world = w } in
      let two : 0 + cnt * 1 + cnt * 1 ≡ cnt + cnt = omega arith in
      Ends-bind _ _ (rounds K i386 true tid sp table cnt (0 ∷ []) (pos 0) _) _
        (rounds-Fine K tid sp table small apart 1 cnt 0 0 (pos 0) s1 _ (omega arith) (omega arith)
          (refl, with_table-Tally K tid sp table small apart 1 s1))
        (λ v t (good, y). rw good (
          Ends-bind _ _ (rounds K i386 true tid sp table cnt (0 ∷ []) v t) _
            (rounds-Fine K tid sp table small apart 1 cnt (0 + cnt) (0 + cnt * 1) v s1 t
              (omega arith) (omega arith) (good, y))
            (λ v2 t2 (good2, y2).
              rw
                (
                  good2,
                  waited_lem
                      (exit_status (
                        child_loop K i386 inherited child sp table cnt
                          (with_table K i386 true tid sp table s)))
                      v2 t2,
                )
                (
                  child_status inherited cnt s,
                  Tally-child (called_on 1 (cnt + cnt)) (cnt + cnt) (child_hits inherited cnt) w s
                      t2 (child_world-hits inherited cnt s)
                      (Tally-cong sp table tid _ (called_on 1 (cnt + cnt)) (cnt + cnt) s1 t2
                        (λ j. ground arith) (rw two at y2)),
                ))))
