-- ===== src/Kernel/Count.antt =====
-- What a trace leaves behind: allocations, debugfs entries and probes, counted per address.
use uprobe_tests.Base.{
  ℕ, ◌+◌, Bool, true, false, [], ◌∷◌, ◌||◌, ◌&&◌, not, ◌==◌, ℤ, is_zero, eq_int, neg_einprogress,
}
use uprobe_tests.Kernel.{Event, Trace}

-- Adds one where the test holds.
abbrev pub add_if : Bool → ℕ → ℕ
add_if true n = 1 + n
add_if false n = n

-- Blocks handed out at `p`; NULL is no block.
unfoldable pub allocs : ℕ → Trace → ℕ
allocs p [] = 0
allocs p (Event.kmalloc size q ∷ t) = add_if (p == q && not (q == 0)) (allocs p t)
allocs p (_ ∷ t) = allocs p t

unfoldable pub frees : ℕ → Trace → ℕ
frees p [] = 0
frees p (Event.kfree q ∷ t) = add_if (p == q && not (q == 0)) (frees p t)
frees p (_ ∷ t) = frees p t

-- Entries of debugfs created under the dentry `d`.
unfoldable pub entries : ℕ → Trace → ℕ
entries d [] = 0
entries d (Event.create_dir _ e ∷ t) = add_if (d == e && not (e == 0)) (entries d t)
entries d (Event.create_file _ _ e ∷ t) = add_if (d == e && not (e == 0)) (entries d t)
entries d (_ ∷ t) = entries d t

unfoldable pub removes : ℕ → Trace → ℕ
removes d [] = 0
removes d (Event.remove e ∷ t) = add_if (d == e && not (e == 0)) (removes d t)
removes d (_ ∷ t) = removes d t

-- The answers after which a probe is or will be in place.
abbrev pub accepted : ℤ → Bool
accepted r = is_zero r || eq_int r neg_einprogress

-- Registrations of the `struct uprobe` or `struct uretprobe` at `a` that the kernel accepted.
unfoldable pub registers : ℕ → Trace → ℕ
registers a [] = 0
registers a (Event.register_uprobe u r ∷ t) = add_if (a == u.addr && accepted r) (registers a t)
registers a (Event.register_uretprobe u r ∷ t) = add_if (a == u.addr && accepted r) (registers a t)
registers a (_ ∷ t) = registers a t

unfoldable pub unregisters : ℕ → Trace → ℕ
unregisters a [] = 0
unregisters a (Event.unregister_uprobe u ∷ t) = add_if (a == u.addr) (unregisters a t)
unregisters a (Event.unregister_uretprobe u ∷ t) = add_if (a == u.addr) (unregisters a t)
unregisters a (_ ∷ t) = unregisters a t
