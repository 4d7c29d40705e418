-- ===== src/Slot/Uncounted.antt =====
-- A probe function on which no probe is registered.
use uprobe_tests.Base.{
  ℕ, ◌+◌, ◌*◌, ◌%◌, ◌<◌, ◌≡◌, ◌⊎◌, inl, inr, refl, true, false, some, arith, ◌==◌, Bool-cases, ℤ,
  minus_one,
}
use uprobe_tests.Kernel.{Kernel}
use uprobe_tests.Slot.{Probed, ucount_at, kcount_at}
use uprobe_tests.Slot.Memory.{Mem, i386, ulong_max, store, get_ulong}
use uprobe_tests.Slot.User.{probe_body, call_probe, probe}
use uprobe_tests.Slot.Counts.{Ends}

-- `kcount` is still -1.
pub record Idle (tid slot : ℕ) (m : Mem) : Type 0 where
  pub utid : ℕ
  pub ucount : ℕ
  pub whose : (utid ≡ 0) ⊎ (utid ≡ tid)
  pub holds_utid : m slot ≡ some utid
  pub holds_ucount : get_ulong i386 m (slot + ucount_at) ≡ some ucount
  pub holds_kcount : get_ulong i386 m (slot + kcount_at i386) ≡ some (ulong_max i386)

abbrev pub IdleEnd : ℕ → ℕ → ℤ → Probed → Type 0
IdleEnd tid slot v t = (v ≡ minus_one) × Idle tid slot t.mem

module _ (tid slot : ℕ) where
  abbrev pub Apart : ℕ → Type 0
  Apart sp = (sp + 1 < slot) ⊎ (slot + 3 < sp + 1)

  probe_body-Idle :
      (s : Probed) → Idle tid slot s.mem → Ends (IdleEnd tid slot) (probe_body i386 slot s)
  unfolding probe_body
  probe_body-Idle s c =
      let new : ℕ = (c.ucount + 1) % 4294967296 in
      let stored : Mem = store s.mem (slot + 2) (new % 4294967296) in
      let kept : stored (slot + 3) ≡ some 4294967295 = ground (arith, c.holds_kcount) in
      rw (c.holds_ucount, c.holds_ucount, kept)
        (
          refl,
          record {
            utid = c.utid;
            ucount = new % 4294967296;
            whose = c.whose;
            holds_utid = ground (arith, c.holds_utid);
            holds_ucount = ground arith;
            holds_kcount = kept;
          },
        )

  call_probe-Idle :
      (K : Kernel) (sp : ℕ) (s : Probed)
      → Apart sp
      → Idle tid slot s.mem
      → Ends (IdleEnd tid slot) (call_probe K i386 false tid sp slot s)
  unfolding call_probe
  call_probe-Idle K sp s apart c =
      probe_body-Idle (record s { mem = store s.mem (sp + 1) (4 * slot) })
        (record {
          utid = c.utid;
          ucount = c.ucount;
          whose = c.whose;
          holds_utid = ground (arith, c.holds_utid);
          holds_ucount = ground (arith, c.holds_ucount);
          holds_kcount = ground (arith, c.holds_kcount);
        })

  pub probe-Idle :
      (K : Kernel) (sp : ℕ) (s : Probed)
      → Apart sp
      → Idle tid slot s.mem
      → Ends (IdleEnd tid slot) (probe K i386 false tid sp slot s)
  unfolding probe
  probe-Idle K sp s apart c = elim (Bool-cases (c.utid == 0)) [
    | inl unset ↦
        rw (c.holds_utid, unset)
          (call_probe-Idle K sp (record s { mem = store s.mem slot tid }) apart
            (record {
              utid = tid;
              ucount = c.ucount;
              whose = inr refl;
              holds_utid = ground arith;
              holds_ucount = ground (arith, c.holds_ucount);
              holds_kcount = ground (arith, c.holds_kcount);
            }))
    | inr set ↦
        let ours : (c.utid == tid) ≡ true = ground (arith, c.whose) in
        rw (c.holds_utid, set, ours) (call_probe-Idle K sp s apart c)
  ]
