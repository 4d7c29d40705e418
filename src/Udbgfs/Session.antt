-- ===== src/Udbgfs/Session.antt =====
-- Between `u_dbfs_init` and `u_dbfs_cleanup`: what the debugfs state holds, and that it is let go.
use uprobe_tests.Base.{
  ℕ, ◌+◌, String, ◌≡◌, refl, Bool, true, false, not, ◌&&◌, Option, none, some, List, ◌∷◌, arith,
  ◌==◌, ℤ, is_zero,
}
use uprobe_tests.Kernel.{Arg, Event, Uprobe, Kernel, World, DataBuf}
use uprobe_tests.Kernel.Count.{add_if, allocs, frees, entries, removes, registers, unregisters}
use uprobe_tests.Udbgfs.{u_dbfs_init, u_dbfs_cleanup, test_printk, printed_buf, print_into}

-- The blocks at `p` that the buffer keeps, and the entries at `d` that the static variables keep.
abbrev pub held : ℕ → Option DataBuf → ℕ
held p none = 0
held p (some b) =
    add_if (p == b.ptr && not (b.ptr == 0)) (add_if (p == b.data_ptr && not (b.data_ptr == 0)) 0)

abbrev pub shown : ℕ → World → ℕ
shown d w = add_if (d == w.dir && not (w.dir == 0)) (
    add_if (d == w.data_file && not (w.data_file == 0))
      (add_if (d == w.cleanup_file && not (w.cleanup_file == 0)) 0))

abbrev pub has_block : Option DataBuf → Bool
has_block none = false
has_block (some b) = not (b.data_ptr == 0)

-- Since `before` nothing was made that is not held, and no NULL buffer was followed.
pub record IsOpen (before now : World) : Type 0 where
  pub memory :
      (p : ℕ)
      → allocs p now.trace + frees p before.trace
        ≡ allocs p before.trace + frees p now.trace + held p now.print_buf
  pub files :
      (d : ℕ)
      → entries d now.trace + removes d before.trace
        ≡ entries d before.trace + removes d now.trace + shown d now
  pub has : has_block now.print_buf ≡ true
  pub fine : now.oops ≡ before.oops

pub u_dbfs_init-IsOpen :
    (K : Kernel) (path : String) (w : World)
    → is_zero (u_dbfs_init K path w).0 ≡ true
    → IsOpen w (u_dbfs_init K path w).1
unfolding u_dbfs_init allocs frees entries removes
u_dbfs_init-IsOpen K path w ok = record {
  memory = λ p. ground arith;
  files = λ d. ground arith;
  has = ground arith;
  fine = ground arith;
}

-- `u_dbfs_init` touches no probe.
pub u_dbfs_init-probes :
    (K : Kernel) (path : String) (w : World) (a : ℕ)
    → (registers a (u_dbfs_init K path w).1.trace ≡ registers a w.trace)
      × (unregisters a (u_dbfs_init K path w).1.trace ≡ unregisters a w.trace)
unfolding u_dbfs_init registers unregisters
u_dbfs_init-probes K path w a = (ground arith, ground arith)

held-printed_buf :
    (K : Kernel) (o : Option DataBuf) (fmt : String) (args : List Arg)
    → ((p : ℕ) → held p (printed_buf K o fmt args) ≡ held p o)
      × (has_block (printed_buf K o fmt args) ≡ has_block o)
unfolding print_into
held-printed_buf K none fmt args = (λ p. refl, refl)
held-printed_buf K (some b) fmt args = (λ p. refl, refl)

pub test_printk-IsOpen :
    (K : Kernel) (fmt : String) (args : List Arg) (before w : World)
    → IsOpen before w
    → IsOpen before (test_printk K fmt args w).1
test_printk-IsOpen K fmt args before w o =
    let (held_same, block_same) = held-printed_buf K w.print_buf fmt args in
    record {
      memory = λ p. omega (arith, o.memory p, held_same p);
      files = o.files;
      has = rw block_same o.has;
      fine = ground (arith, o.has, o.fine);
    }

-- The calls about probes.
pub data ProbeEvent : Event → Type 0 where
  register : {u : Uprobe} {r : ℤ} → ProbeEvent (Event.register_uprobe u r)
  unregister : {u : Uprobe} → ProbeEvent (Event.unregister_uprobe u)
  register_ret : {u : Uprobe} {r : ℤ} → ProbeEvent (Event.register_uretprobe u r)
  unregister_ret : {u : Uprobe} → ProbeEvent (Event.unregister_uretprobe u)
  init_ret : {pid tramp : ℕ} {r : ℤ} → ProbeEvent (Event.init_uretprobes pid tramp r)

pub ProbeEvent-IsOpen :
    {e : Event} {before w : World}
    → ProbeEvent e
    → IsOpen before w
    → IsOpen before (record w { trace = e ∷ w.trace })
unfolding allocs frees entries removes
ProbeEvent-IsOpen register o = record {
  memory = o.memory;
  files = o.files;
  has = o.has;
  fine = o.fine;
}
ProbeEvent-IsOpen unregister o = record {
  memory = o.memory;
  files = o.files;
  has = o.has;
  fine = o.fine;
}
ProbeEvent-IsOpen register_ret o = record {
  memory = o.memory;
  files = o.files;
  has = o.has;
  fine = o.fine;
}
ProbeEvent-IsOpen unregister_ret o = record {
  memory = o.memory;
  files = o.files;
  has = o.has;
  fine = o.fine;
}
ProbeEvent-IsOpen init_ret o = record {
  memory = o.memory;
  files = o.files;
  has = o.has;
  fine = o.fine;
}

-- Everything that was made has been taken back, and no probe was touched meanwhile.
pub record Closed (before now after : World) : Type 0 where
  pub memory :
      (p : ℕ)
      → allocs p after.trace + frees p before.trace ≡ allocs p before.trace + frees p after.trace
  pub files :
      (d : ℕ)
      → entries d after.trace + removes d before.trace
        ≡ entries d before.trace + removes d after.trace
  pub registers_same : (a : ℕ) → registers a after.trace ≡ registers a now.trace
  pub unregisters_same : (a : ℕ) → unregisters a after.trace ≡ unregisters a now.trace
  pub fine : after.oops ≡ before.oops

pub u_dbfs_cleanup-Closed :
    (before w : World) → IsOpen before w → Closed before w (u_dbfs_cleanup w).1
unfolding u_dbfs_cleanup allocs frees entries removes registers unregisters
u_dbfs_cleanup-Closed before w o = record {
  memory = λ p. ground (arith, o.memory p, o.has);
  files = λ d. ground (arith, o.files d);
  registers_same = λ a. ground arith;
  unregisters_same = λ a. ground arith;
  fine = ground (arith, o.has, o.fine);
}
