-- ===== src/Slot/I386.antt =====
-- On i386 the handler and the user code count alike.
use uprobe_tests.Base.{
  ℕ, suc, ◌+◌, ◌*◌, ◌/◌, ◌%◌, ◌<◌, ◌≡◌, ◌⊎◌, inl, inr, Bool-cases, refl, ◌∙◌, true, some, arith,
  ◌==◌, if◌then◌else◌, ℤ, pos,
}
use uprobe_tests.Kernel.{Kernel}
use uprobe_tests.Slot.{Probed, handle_slot, probe_handler, get_first_arg}
use uprobe_tests.Slot.Memory.{Mem, i386, ulong_max, cell_mod, store}
use uprobe_tests.Slot.User.{
  to_int, compare_counts, probe_body, breakpoint, call_probe, nth_call, probe, init_slot,
}
use uprobe_tests.Slot.Counts.{Counts, Ends, Ends-nth_call, Ends-mono}

-- `ucount` after the handler: set to -1 at the first hit.
abbrev started : ℕ → ℕ → ℕ
started ucount kcount = if kcount == ulong_max i386 then ulong_max i386 else ucount

module _ (K : Kernel) (tid slot : ℕ) (small : tid < cell_mod) where
  handle_slot-Counts :
      (s : Probed) {ucount kcount : ℕ}
      → kcount < cell_mod
      → Counts i386 slot tid ucount kcount s.mem
      → Counts i386 slot tid
          (started ucount kcount)
          ((kcount + 1) % cell_mod)
          (handle_slot K i386 tid slot s).mem
  unfolding handle_slot
  handle_slot-Counts s k c = record {
    ktid = tid;
    holds_utid = ground arith;
    holds_ktid = ground arith;
    holds_ucount = ground arith;
    holds_kcount = ground arith;
  }

  -- The slot is out of the way of the argument on the stack.
  abbrev pub Apart : ℕ → Type 0
  Apart sp = (sp + 1 < slot) ⊎ (slot + 3 < sp + 1)

  push_arg-Counts :
      (sp : ℕ) {utid ucount kcount : ℕ} (m : Mem)
      → Apart sp
      → Counts i386 slot utid ucount kcount m
      → Counts i386 slot utid ucount kcount (store m (sp + 1) (4 * slot))
  push_arg-Counts sp m apart c = record {
    ktid = c.ktid;
    holds_utid = ground (arith, c.holds_utid);
    holds_ktid = ground (arith, c.holds_ktid);
    holds_ucount = ground (arith, c.holds_ucount);
    holds_kcount = ground (arith, c.holds_kcount);
  }

  -- `get_first_arg` finds the slot.
  pub breakpoint_lem :
      (sp : ℕ) (s : Probed)
      → s.mem (sp + 1) ≡ some (4 * slot)
      → breakpoint K i386 true tid sp slot s ≡ some (handle_slot K i386 tid slot s)
  unfolding breakpoint probe_handler get_first_arg
  breakpoint_lem sp s e =
      let cell : 4 * sp / 4 + 1 ≡ sp + 1 = omega arith in
      let back : 4 * slot / 4 ≡ slot = omega arith in rw (cell, e, back)

  -- The state after a hit that both sides counted as the `n`-th: `n` is the result.
  abbrev pub Agree : ℕ → ℤ → Probed → Type 0
  Agree n v t = (v ≡ to_int n) × Counts i386 slot tid n n t.mem

  probe_body-Counts :
      (s : Probed) (n k : ℕ)
      → k ≡ (n + 1) % cell_mod
      → Counts i386 slot tid n k s.mem
      → Ends (Agree k) (probe_body i386 slot s)
  unfolding probe_body
  probe_body-Counts s n k e c =
      let stored : Mem = store s.mem (slot + 2) ((n + 1) % cell_mod % cell_mod) in
      let kept : stored (slot + 3) ≡ some k = ground (arith, c.holds_kcount) in
      let same : compare_counts i386 k ((n + 1) % cell_mod) ≡ to_int k = ground arith in
      rw (c.holds_ucount, c.holds_ucount, kept)
        (
          same,
          record {
            ktid = c.ktid;
            holds_utid = ground (arith, c.holds_utid);
            holds_ktid = ground (arith, c.holds_ktid);
            holds_ucount = ground arith;
            holds_kcount = kept;
          },
        )

  call_probe-Agree :
      (sp : ℕ) (s : Probed) (n : ℕ)
      → Apart sp
      → n < cell_mod
      → Counts i386 slot tid n n s.mem
      → Ends (Agree ((n + 1) % cell_mod)) (call_probe K i386 true tid sp slot s)
  unfolding call_probe
  call_probe-Agree sp s n apart lt c =
      let pushed : Probed = record s { mem = store s.mem (sp + 1) (4 * slot) } in
      let there : pushed.mem (sp + 1) ≡ some (4 * slot) = ground arith in
      let c1 = push_arg-Counts sp s.mem apart c in
      let c2 = handle_slot-Counts pushed lt c1 in
      let start : started n n ≡ n = ground arith in
      rw (breakpoint_lem sp pushed there) (
        probe_body-Counts (handle_slot K i386 tid slot pushed) n ((n + 1) % cell_mod) refl
          (rw start at c2))

  -- One call of `probe_##id` by the slot's thread, or by the first thread on a fresh slot.
  pub probe-Agree :
      (sp : ℕ) (s : Probed) (utid n : ℕ)
      → Apart sp
      → n < cell_mod
      → (utid ≡ 0) ⊎ (utid ≡ tid)
      → Counts i386 slot utid n n s.mem
      → Ends (Agree ((n + 1) % cell_mod)) (probe K i386 true tid sp slot s)
  unfolding probe
  probe-Agree sp s utid n apart lt whose c = elim (Bool-cases (utid == 0)) [
    | inl unset ↦
        rw (c.holds_utid, unset)
          (call_probe-Agree sp (record s { mem = store s.mem slot tid }) n apart lt
            (record {
              ktid = c.ktid;
              holds_utid = ground arith;
              holds_ktid = ground (arith, c.holds_ktid);
              holds_ucount = ground (arith, c.holds_ucount);
              holds_kcount = ground (arith, c.holds_kcount);
            }))
    | inr set ↦
        let own : utid ≡ tid = ground arith in
        let ours : (utid == tid) ≡ true = ground arith in
        rw (c.holds_utid, set, ours) (call_probe-Agree sp s n apart lt (rw own at c))
  ]

  pub init_slot-Counts :
      (m : Mem) → Counts i386 slot 0 (ulong_max i386) (ulong_max i386) (init_slot i386 slot m)
  unfolding init_slot
  init_slot-Counts m = record {
    ktid = 0;
    holds_utid = ground arith;
    holds_ktid = ground arith;
    holds_ucount = ground arith;
    holds_kcount = ground arith;
  }

  -- On i386, with a probe registered, the calls of a probe function on a fresh slot return 0, 1, 2
  -- and so on, up to 2 ^ 31 - 1: neither side loses a hit, nothing faults, and the slot then holds
  -- the thread's id and both counts. The id has 32 bits, and the slot is not where the argument is
  -- pushed.
  pub nth_call-Counts :
      (sp : ℕ) (s : Probed) (n : ℕ)
      → Apart sp
      → n < 2147483648
      → Ends
          (λ v t. (v ≡ pos n) × Counts i386 slot tid n n t.mem)
          (nth_call n
            (probe K i386 true tid sp slot)
            (record s { mem = init_slot i386 slot s.mem }))
  nth_call-Counts sp s n apart lt =
      let fresh : Probed = record s { mem = init_slot i386 slot s.mem } in
      let counted =
        Ends-nth_call (suc n) (λ k. Agree (k % cell_mod)) (probe K i386 true tid sp slot) fresh
          (probe-Agree sp fresh 0 (ulong_max i386) apart (omega arith) (inl refl)
            (init_slot-Counts s.mem))
          (λ k v t _ (_, c). next k t c) n (omega arith) in
      let small_n : n % cell_mod ≡ n = omega arith in
      Ends-mono (Agree (n % cell_mod)) _ (nth_call n (probe K i386 true tid sp slot) fresh) counted
        (λ v t (e, c). (e ∙ ground arith, rw small_n at c))
    where
      next :
          (k : ℕ) (t : Probed)
          → Counts i386 slot tid (k % cell_mod) (k % cell_mod) t.mem
          → Ends (Agree (suc k % cell_mod)) (probe K i386 true tid sp slot t)
      next k t c =
          let step : (k % cell_mod + 1) % cell_mod ≡ suc k % cell_mod = omega arith in
          rw step at (probe-Agree sp t tid (k % cell_mod) apart (omega arith) (inr refl) c)
