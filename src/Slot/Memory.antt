-- ===== src/Slot/Memory.antt =====
-- User memory in cells of 32 bits, and the accesses of an `unsigned long` to it.
use uprobe_tests.Base.{ℕ, ◌+◌, ◌*◌, ◌/◌, ◌%◌, Option, none, some, ◌==◌, if◌then◌else◌}

-- Cell `n` holds the bytes `4 * n` to `4 * n + 3`; `none` is not mapped.
abbrev pub Mem : Type 0
Mem = ℕ → Option ℕ

pub data Arch : Type 0 where
  i386 x86_64 other : Arch

abbrev pub ulong_cells : Arch → ℕ
ulong_cells i386 = 1
ulong_cells _ = 2

abbrev pub cell_mod : ℕ
cell_mod = 4294967296

-- `(unsigned long)-1`.
abbrev pub ulong_max : Arch → ℕ
ulong_max i386 = 4294967295
ulong_max _ = 18446744073709551615

abbrev pub store : Mem → ℕ → ℕ → Mem
store m p v q = if p == q then some v else m q

-- The low half of an `unsigned long` of 64 bits is in the first of its two cells.
abbrev pub join : Option ℕ → Option ℕ → Option ℕ
join none _ = none
join (some lo) none = none
join (some lo) (some hi) = some (lo + cell_mod * hi)

abbrev pub get_ulong : Arch → Mem → ℕ → Option ℕ
get_ulong i386 m p = m p
get_ulong x86_64 m p = join (m p) (m (p + 1))
get_ulong other m p = join (m p) (m (p + 1))

-- A write to cells that are not mapped fails and changes nothing.
abbrev pub put_one : Option ℕ → Mem → ℕ → ℕ → Option Mem
put_one none m p v = none
put_one (some _) m p v = some (store m p v)

abbrev pub put_two : Option ℕ → Option ℕ → Mem → ℕ → ℕ → Option Mem
put_two none _ m p v = none
put_two (some _) none m p v = none
put_two (some _) (some _) m p v =
    some (store (store m p (v % cell_mod)) (p + 1) (v / cell_mod % cell_mod))

abbrev pub put_ulong : Arch → Mem → ℕ → ℕ → Option Mem
put_ulong i386 m p v = put_one (m p) m p (v % cell_mod)
put_ulong x86_64 m p v = put_two (m p) (m (p + 1)) m p v
put_ulong other m p v = put_two (m p) (m (p + 1)) m p v
