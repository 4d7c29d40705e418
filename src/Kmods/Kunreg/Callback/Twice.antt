-- ===== src/Kmods/Kunreg/Callback/Twice.antt =====
-- What the callback build of kunreg.c has taken back once it is unloaded.
use uprobe_tests.Base.{
  ℕ, zero, suc, ◌≤◌, ◌<◌, false, Bool-cases, inl, inr, is_neg, ◌≡◌, refl, sym, ap, ◌∙◌, List, [],
  ◌∷◌, ◌++◌, arith, length,
}
use uprobe_tests.Kernel.{Name, Kernel}
use uprobe_tests.Kernel.Count.{unregisters}
use uprobe_tests.Resolve.{Config}
use uprobe_tests.Symbols.{Table}
use uprobe_tests.Kmods.Kunreg.{
  RegProbe, Kunreg, max_probes, register_all, unregister_all, cleanup_module,
}
use uprobe_tests.Kmods.Kunreg.Kept.{kept, taken, filled, IsKept, register_all-IsKept}
use uprobe_tests.Kmods.Kunreg.Removal.{unregister_all-taken, cleanup_module-taken}
use uprobe_tests.Symbols.Loop.{matching}
use uprobe_tests.Udbgfs.{u_dbfs_init}
use uprobe_tests.Kmods.{probe_prefix, init_uprobe_failed}
use uprobe_tests.Kmods.Kunreg.Room.{
  Room, register_all-Room, unregister_all-Room, cleanup_module-Room,
}
use uprobe_tests.Kmods.Kunreg.Callback.{load, Hit, hit, hits}
use uprobe_tests.Kmods.Kunreg.Callback.Untouched.{
  cleanup_module-Untouched, hit-Untouched, hits-Untouched, load-Untouched,
}

length-filled : (n : ℕ) (ps : ℕ → RegProbe) → length (filled n ps) ≡ n
unfolding filled
length-filled zero ps = refl
length-filled (suc n) ps = ap suc (length-filled n ps)

module _ (K : Kernel) (table : Table) where
  -- `reg_all` and then `unreg_all`.
  abbrev pub round : Kunreg → Kunreg
  round s = hit K table Hit.unreg_all (hit K table Hit.reg_all s)

  -- What the probes of `new` leave taken back when `unregister_all` has run twice.
  abbrev pub twice : (new : List RegProbe) → (behind : RegProbe) → List RegProbe → List RegProbe
  twice new behind before = (behind ∷ new) ++ ((behind ∷ new) ++ before)

  round-twice :
      (s : Kunreg)
      → (new : List RegProbe) × (kept (hit K table Hit.reg_all s).world.trace
          ≡ new ++ kept s.world.trace)
        × (taken (cleanup_module (round s)).world.trace
            ≡ twice new (s.probes (length new)) (taken s.world.trace))
  unfolding hit unregister_all
  round-twice s = (filled n r.probes, i.stored, ends)
    where
      r : Kunreg
      r = register_all K table s

      n : ℕ
      n = r.num_reg_probes

      i : IsKept (kept s.world.trace) (taken s.world.trace) s.probes r
      i = register_all-IsKept K table s

      behind : r.probes n ≡ s.probes (length (filled n r.probes))
      behind = i.rest n (omega arith) ∙ ap s.probes (sym (length-filled n r.probes))

      first :
          taken (unregister_all r).world.trace
          ≡ r.probes n ∷ filled n r.probes ++ taken s.world.trace
      first = unregister_all-taken r ∙ ap (λ t. r.probes n ∷ filled n r.probes ++ t) i.untaken

      ends :
          taken (cleanup_module (unregister_all r)).world.trace
          ≡ twice (filled n r.probes) (s.probes (length (filled n r.probes))) (taken s.world.trace)
      ends =
          cleanup_module-taken (unregister_all r)
          ∙ ap (λ t. r.probes n ∷ filled n r.probes ++ t) first
          ∙ ap (λ p. twice (filled n r.probes) p (taken s.world.trace)) behind

  hit-Room :
      (h : Hit) (s : Kunreg)
      → length (matching table probe_prefix) < max_probes
      → Room (length (matching table probe_prefix)) s
      → Room (length (matching table probe_prefix)) (hit K table h s)
  unfolding hit
  hit-Room Hit.reg_all s few room = register_all-Room K table s few room.1
  hit-Room Hit.unreg_all s few room = unregister_all-Room _ s few room

  hits-Room :
      (hs : List Hit) (s : Kunreg)
      → length (matching table probe_prefix) < max_probes
      → Room (length (matching table probe_prefix)) s
      → Room (length (matching table probe_prefix)) (hits K table hs s)
  unfolding hits
  hits-Room [] s few room = room
  hits-Room (h ∷ hs) s few room = hits-Room hs (hit K table h s) few (hit-Room h s few room)

  load-Room :
      (pid : ℕ) (find_vaddr : Name → ℕ) (sizeof_uprobe : ℕ) (cfg : Config) (s : Kunreg) (n : ℕ)
      → s.num_reg_probes ≤ n
      → s.overrun ≡ false
      → Room n (load K pid find_vaddr sizeof_uprobe cfg s).1
  unfolding load
  load-Room pid find_vaddr sizeof_uprobe cfg s n le within =
      elim (Bool-cases (init_uprobe_failed K cfg)) [
        | inl missing ↦ rw missing (le, within)
        | inr found ↦ elim (Bool-cases (is_neg (u_dbfs_init K "kunreg" s.world).0)) [
          | inl bad ↦ rw (found, bad) (le, within)
          | inr good ↦ rw (found, good) (le, within)
        ]
      ]

  -- Built with UPROBES_REG_CALLBACK, for a kernel whose `struct uprobe_consumer` has the fields that
  -- this build sets, kunreg.c takes its probes back twice. Fewer than 100 symbols start with `_probe`,
  -- and no probe is in the array before the load; then no element behind it is read or written. However it has loaded, and
  -- whatever hits of `reg_all` and `unreg_all` came before: if `reg_all` is hit, then `unreg_all`, and
  -- the module is unloaded, each probe that the kernel accepted at this hit of `reg_all` is unregistered
  -- at the hit of `unreg_all` and again at the unload, and both times the element that the array had
  -- before behind the last of them is unregistered, too. The two probes of `init_module`, on `reg_all`
  -- and `unreg_all` themselves, are never taken back.
  pub takes_back_twice :
      (pid : ℕ) (find_vaddr : Name → ℕ) (sizeof_uprobe : ℕ) (cfg : Config) (loaded : Kunreg)
      (before : List Hit) (s : Kunreg) (addr : ℕ)
      → length (matching table probe_prefix) < max_probes
      → loaded.num_reg_probes ≡ 0
      → loaded.overrun ≡ false
      → s ≡ hits K table before (load K pid find_vaddr sizeof_uprobe cfg loaded).1
      → ((new : List RegProbe) × (kept (hit K table Hit.reg_all s).world.trace
            ≡ new ++ kept s.world.trace)
          × (taken (cleanup_module (round s)).world.trace
              ≡ twice new (s.probes (length new)) (taken s.world.trace)))
        × (unregisters addr (cleanup_module (round s)).world.trace
            ≡ unregisters addr loaded.world.trace)
        × ((cleanup_module (round s)).overrun ≡ false)
  takes_back_twice pid find_vaddr sizeof_uprobe cfg loaded before s a few none_yet within e =
      let n = length (matching table probe_prefix) in
      let start : Room n (load K pid find_vaddr sizeof_uprobe cfg loaded).1 =
        load-Room pid find_vaddr sizeof_uprobe cfg loaded n (omega (arith, none_yet)) within in
      let now : Room n s = rw e (hits-Room before _ few start) in
      (
        round-twice s,
        cleanup_module-Untouched (round s) a
            ∙ hit-Untouched K table Hit.unreg_all (hit K table Hit.reg_all s) a
            ∙ hit-Untouched K table Hit.reg_all s a
            ∙ ap (λ t. unregisters a t.world.trace) e
            ∙ hits-Untouched K table before (load K pid find_vaddr sizeof_uprobe cfg loaded).1 a
            ∙ load-Untouched K pid find_vaddr sizeof_uprobe cfg loaded a,
        cleanup_module-Room n (round s) few (
            hit-Room Hit.unreg_all (hit K table Hit.reg_all s) few
              (hit-Room Hit.reg_all s few now)),
      )
