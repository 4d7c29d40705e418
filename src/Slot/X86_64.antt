-- ===== src/Slot/X86_64.antt =====
-- On x86_64 the handler stores `ktid` as an `unsigned long`, over the low half of `ucount`.
use uprobe_tests.Base.{
  ℕ, suc, ◌+◌, ◌*◌, ◌/◌, ◌%◌, ◌<◌, min, ◌≡◌, ◌⊎◌, inl, inr, refl, ap, ◌∙◌, true, false, some, ltb,
  arith, ◌==◌, Bool-cases, if◌then◌else◌, ℤ, pos, negsuc,
}
use uprobe_tests.Kernel.{Kernel}
use uprobe_tests.Slot.{
  Probed, ucount_at, kcount_at, put_ktid, check_utid, put_ucount, put_kcount, handle_slot,
  probe_handler, get_first_arg,
}
use uprobe_tests.Slot.Memory.{Mem, x86_64, cell_mod, store, get_ulong, put_ulong}
use uprobe_tests.Slot.User.{
  compare_counts, probe_body, breakpoint, call_probe, nth_call, probe, init_slot,
}
use uprobe_tests.Slot.Counts.{Ends, Ends-nth_call, Ends-mono}

-- The cells of a slot: `ucount` and `kcount` have two each, the low half first.
pub record Cells (slot utid ulo uhi klo khi : ℕ) (m : Mem) : Type 0 where
  pub ktid : ℕ
  pub cell_utid : m slot ≡ some utid
  pub cell_ktid : m (slot + 1) ≡ some ktid
  pub cell_ulo : m (slot + 2) ≡ some ulo
  pub cell_uhi : m (slot + 3) ≡ some uhi
  pub cell_klo : m (slot + 4) ≡ some klo
  pub cell_khi : m (slot + 5) ≡ some khi

abbrev pub last : ℕ
last = 4294967295

cast :
    {slot utid ulo uhi klo khi ulo' klo' khi' : ℕ} {m : Mem}
    → ulo ≡ ulo'
    → klo ≡ klo'
    → khi ≡ khi'
    → Cells slot utid ulo uhi klo khi m
    → Cells slot utid ulo' uhi klo' khi' m
cast u e e' c = record {
  ktid = c.ktid;
  cell_utid = c.cell_utid;
  cell_ktid = c.cell_ktid;
  cell_ulo = c.cell_ulo ∙ ap some u;
  cell_uhi = c.cell_uhi;
  cell_klo = c.cell_klo ∙ ap some e;
  cell_khi = c.cell_khi ∙ ap some e';
}

module _ (K : Kernel) (tid slot : ℕ) (small : tid < cell_mod) where
  put_ktid-mem :
      (s : Probed) {ulo uhi klo khi : ℕ}
      → Cells slot tid ulo uhi klo khi s.mem
      → (put_ktid K x86_64 tid slot s).mem ≡ store (store s.mem (slot + 1) tid) (slot + 2) 0
  put_ktid-mem s c = ground (arith, c.cell_ktid, c.cell_ulo)

  put_ktid-Cells :
      (s : Probed) {ulo uhi klo khi : ℕ}
      → Cells slot tid ulo uhi klo khi s.mem
      → Cells slot tid 0 uhi klo khi (put_ktid K x86_64 tid slot s).mem
  put_ktid-Cells s c = rw (put_ktid-mem s c) (record {
    ktid = tid;
    cell_utid = ground (arith, c.cell_utid);
    cell_ktid = ground arith;
    cell_ulo = ground arith;
    cell_uhi = ground (arith, c.cell_uhi);
    cell_klo = ground (arith, c.cell_klo);
    cell_khi = ground (arith, c.cell_khi);
  })

  check_utid-mem : (s : Probed) → (check_utid K x86_64 tid slot s).mem ≡ s.mem
  check_utid-mem s = ground arith

  put_kcount-Cells :
      (s : Probed) (k : ℕ) {ulo uhi klo khi : ℕ}
      → Cells slot tid ulo uhi klo khi s.mem
      → Cells slot tid ulo uhi
          (k % cell_mod)
          (k / cell_mod % cell_mod)
          (put_kcount K x86_64 k slot s).mem
  put_kcount-Cells s k c =
      let stored : (put_kcount K x86_64 k slot s).mem
          ≡ store (store s.mem (slot + 4) (k % cell_mod)) (slot + 5) (k / cell_mod % cell_mod) =
        ground (arith, c.cell_klo, c.cell_khi) in
      rw stored (record {
        ktid = c.ktid;
        cell_utid = ground (arith, c.cell_utid);
        cell_ktid = ground (arith, c.cell_ktid);
        cell_ulo = ground (arith, c.cell_ulo);
        cell_uhi = ground (arith, c.cell_uhi);
        cell_klo = ground arith;
        cell_khi = ground arith;
      })

  put_ucount-Cells :
      (s : Probed) {ulo uhi klo khi : ℕ}
      → Cells slot tid ulo uhi klo khi s.mem
      → Cells slot tid last last klo khi (put_ucount K x86_64 18446744073709551615 slot s).mem
  put_ucount-Cells s c =
      let stored : (put_ucount K x86_64 18446744073709551615 slot s).mem
          ≡ store (store s.mem (slot + 2) last) (slot + 3) last =
        ground (arith, c.cell_ulo, c.cell_uhi) in
      rw stored (record {
        ktid = c.ktid;
        cell_utid = ground (arith, c.cell_utid);
        cell_ktid = ground (arith, c.cell_ktid);
        cell_ulo = ground arith;
        cell_uhi = ground arith;
        cell_klo = ground (arith, c.cell_klo);
        cell_khi = ground (arith, c.cell_khi);
      })

  -- `kcount` as the handler reads it, after its first two steps.
  checked : Probed → Probed
  checked s = check_utid K x86_64 tid slot (put_ktid K x86_64 tid slot s)

  checked-Cells :
      (s : Probed) {ulo uhi klo khi : ℕ}
      → Cells slot tid ulo uhi klo khi s.mem
      → Cells slot tid 0 uhi klo khi (checked s).mem
  unfolding checked
  checked-Cells s c = rw (check_utid-mem (put_ktid K x86_64 tid slot s)) (put_ktid-Cells s c)

  get_kcount :
      (s : Probed) {ulo uhi klo khi : ℕ}
      → Cells slot tid ulo uhi klo khi s.mem
      → get_ulong x86_64 s.mem (slot + 4) ≡ some (klo + cell_mod * khi)
  get_kcount s c = ground (arith, c.cell_klo, c.cell_khi)

  -- The first hit: `ucount` and `kcount` are still -1.
  handle_slot_first :
      (s : Probed)
      → Cells slot tid last last last last s.mem
      → Cells slot tid last last 0 0 (handle_slot K x86_64 tid slot s).mem
  unfolding handle_slot checked
  handle_slot_first s c =
      rw (get_kcount (checked s) (checked-Cells s c))
        (put_kcount-Cells _ 0 (put_ucount-Cells (checked s) (checked-Cells s c)))

  -- Any later hit, while `kcount` fits one cell: `ucount` is cleared.
  handle_slot_later :
      (s : Probed) (ulo klo : ℕ)
      → klo < last
      → Cells slot tid ulo 0 klo 0 s.mem
      → Cells slot tid 0 0 (klo + 1) 0 (handle_slot K x86_64 tid slot s).mem
  unfolding handle_slot checked
  handle_slot_later s ulo klo lt c =
      let got : get_ulong x86_64 (checked s).mem (slot + 4) ≡ some klo =
        get_kcount (checked s) (checked-Cells s c) ∙ ap some (omega arith) in
      let counting : (klo == 18446744073709551615) ≡ false = ground arith in
      let lo : (klo + 1) % 18446744073709551616 % cell_mod ≡ klo + 1 = omega arith in
      let hi : (klo + 1) % 18446744073709551616 / cell_mod % cell_mod ≡ 0 = omega arith in
      rw (got, counting)
        (cast refl lo hi
          (put_kcount-Cells (checked s) ((klo + 1) % 18446744073709551616) (checked-Cells s c)))

  -- The body of the probe function counts in all 64 bits of `ucount`.
  probe_body-Cells :
      (s : Probed) (ulo uhi klo khi new : ℕ)
      → (ulo + cell_mod * uhi + 1) % 18446744073709551616 ≡ new
      → Cells slot tid ulo uhi klo khi s.mem
      → Ends
          (λ v t.
            (v ≡ compare_counts x86_64 (klo + cell_mod * khi) new)
            × Cells slot tid (new % cell_mod) (new / cell_mod % cell_mod) klo khi t.mem)
          (probe_body x86_64 slot s)
  unfolding probe_body
  probe_body-Cells s ulo uhi klo khi new e c =
      let m : Mem =
        store (store s.mem (slot + 2) (new % cell_mod)) (slot + 3) (new / cell_mod % cell_mod) in
      let old : get_ulong x86_64 s.mem (slot + 2) ≡ some (ulo + cell_mod * uhi) =
        ground (arith, c.cell_ulo, c.cell_uhi) in
      let put : put_ulong x86_64 s.mem (slot + 2) new ≡ some m =
        ground (arith, c.cell_ulo, c.cell_uhi) in
      let kept : get_ulong x86_64 m (slot + 4) ≡ some (klo + cell_mod * khi) =
        ground (arith, c.cell_klo, c.cell_khi) in
      rw (old, e, put, kept)
        (
          refl,
          record {
            ktid = c.ktid;
            cell_utid = ground (arith, c.cell_utid);
            cell_ktid = ground (arith, c.cell_ktid);
            cell_ulo = ground arith;
            cell_uhi = ground arith;
            cell_klo = ground (arith, c.cell_klo);
            cell_khi = ground (arith, c.cell_khi);
          },
        )

  pub breakpoint_lem :
      (sp : ℕ) (s : Probed)
      → breakpoint K x86_64 true tid sp slot s ≡ some (handle_slot K x86_64 tid slot s)
  unfolding breakpoint probe_handler get_first_arg
  breakpoint_lem sp s = let back : 4 * slot / 4 ≡ slot = omega arith in rw back

  -- What the call after `n` others returns: 0, 1 and then -2 for ever.
  abbrev pub result : ℕ → ℤ
  result n = if ltb n 2 then pos n else negsuc 1

  abbrev pub Stuck : ℕ → ℤ → Probed → Type 0
  Stuck n v t = (v ≡ result n) × Cells slot tid (min n 1) 0 n 0 t.mem

  pub call_probe_first :
      (sp : ℕ) (s : Probed)
      → Cells slot tid last last last last s.mem
      → Ends (Stuck 0) (call_probe K x86_64 true tid sp slot s)
  unfolding call_probe
  call_probe_first sp s c = rw (breakpoint_lem sp s) (
      Ends-mono _ (Stuck 0) (probe_body x86_64 slot (handle_slot K x86_64 tid slot s))
        (probe_body-Cells (handle_slot K x86_64 tid slot s) last last 0 0 0 refl
          (handle_slot_first s c))
        (λ v t p. p))

  pub call_probe_later :
      (sp : ℕ) (s : Probed) (n : ℕ)
      → suc n < last
      → Cells slot tid (min n 1) 0 n 0 s.mem
      → Ends (Stuck (suc n)) (call_probe K x86_64 true tid sp slot s)
  unfolding call_probe
  call_probe_later sp s n lt c = rw (breakpoint_lem sp s) (
      Ends-mono _ (Stuck (suc n)) (probe_body x86_64 slot (handle_slot K x86_64 tid slot s))
        (probe_body-Cells (handle_slot K x86_64 tid slot s) 0 0 (n + 1) 0 1 refl
          (handle_slot_later s (min n 1) n (omega arith) c))
        (λ v t (e, d). (e ∙ ground arith, cast one same refl d)))
    where
      one : 1 ≡ min (suc n) 1
      one = omega arith

      same : n + 1 ≡ suc n
      same = omega arith

  pub probe_Stuck :
      (sp : ℕ) (P : ℤ → Probed → Type 0) (s : Probed) (utid ulo uhi klo khi : ℕ)
      → (utid ≡ 0) ⊎ (utid ≡ tid)
      → Cells slot utid ulo uhi klo khi s.mem
      → ((t : Probed)
          → Cells slot tid ulo uhi klo khi t.mem
          → Ends P (call_probe K x86_64 true tid sp slot t))
      → Ends P (probe K x86_64 true tid sp slot s)
  unfolding probe
  probe_Stuck sp P s utid ulo uhi klo khi whose c next = elim (Bool-cases (utid == 0)) [
    | inl unset ↦
        rw (c.cell_utid, unset)
          (next (record s { mem = store s.mem slot tid })
            (record {
              ktid = c.ktid;
              cell_utid = ground arith;
              cell_ktid = ground (arith, c.cell_ktid);
              cell_ulo = ground (arith, c.cell_ulo);
              cell_uhi = ground (arith, c.cell_uhi);
              cell_klo = ground (arith, c.cell_klo);
              cell_khi = ground (arith, c.cell_khi);
            }))
    | inr set ↦
        let own : utid ≡ tid = ground arith in
        let ours : (utid == tid) ≡ true = ground arith in
        rw (c.cell_utid, set, ours) (next s (rw own at c))
  ]

  pub init_slot-Cells : (m : Mem) → Cells slot 0 last last last last (init_slot x86_64 slot m)
  unfolding init_slot
  init_slot-Cells m = record {
    ktid = 0;
    cell_utid = ground arith;
    cell_ktid = ground arith;
    cell_ulo = ground arith;
    cell_uhi = ground arith;
    cell_klo = ground arith;
    cell_khi = ground arith;
  }

  -- On x86_64, with a probe registered and a thread id of 32 bits, the first two calls of a probe
  -- function on a fresh slot return 0 and 1, and every later one up to number 2 ^ 32 - 2 returns
  -- -2, the result that says that the counts differ: `kcount` goes on, and each hit sets `ucount`
  -- back to 0 before the call counts.
  pub nth_call_miscounts :
      (sp : ℕ) (s : Probed) (n : ℕ)
      → n < 4294967295
      → Ends
          (λ v t.
            (v ≡ (if ltb n 2 then pos n else negsuc 1))
            × (get_ulong x86_64 t.mem (slot + ucount_at) ≡ some (min n 1))
            × (get_ulong x86_64 t.mem (slot + kcount_at x86_64) ≡ some n))
          (nth_call n
            (probe K x86_64 true tid sp slot)
            (record s { mem = init_slot x86_64 slot s.mem }))
  nth_call_miscounts sp s n lt =
      let fresh : Probed = record s { mem = init_slot x86_64 slot s.mem } in
      Ends-mono (Stuck n) _ (nth_call n (probe K x86_64 true tid sp slot) fresh)
        (Ends-nth_call last Stuck (probe K x86_64 true tid sp slot) fresh
          (probe_Stuck sp (Stuck 0) fresh 0 last last last last (inl refl) (init_slot-Cells s.mem)
            (λ t c. call_probe_first sp t c))
          (λ k v t below (_, c).
            probe_Stuck sp (Stuck (suc k)) t tid (min k 1) 0 k 0 (inr refl) c
              (λ u d. call_probe_later sp u k below d))
          n lt)
        (λ v t (e, c).
          (e, ground (arith, c.cell_ulo, c.cell_uhi), ground (arith, c.cell_klo, c.cell_khi)))
