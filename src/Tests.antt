-- ===== src/Tests.antt =====
-- A kernel that grants everything, and a state to start from, for the concrete runs.
pub mod Include
pub mod Programs
pub mod Existing
pub mod Handlers
pub mod Threads
pub mod System
pub mod Stream
pub mod Report
use uprobe_tests.Base.{
  ℕ, ◌+◌, ◌^◌, ◌<◌, ◌≤◌, ◌-◌, min, String, ◌≡◌, refl, Bool, true, false, Option, none, some, List,
  [], ◌∷◌, arith, ltb, if◌then◌else◌, length, take, drop, pos, ℤ, neg_einprogress,
}
use uprobe_tests.Kernel.{codes, Arg, Event, Trace, Written, Kernel, World}
use uprobe_tests.Udbgfs.{SimpleRead}
use uprobe_tests.Udbgfs.Buffer.{IsVsnprintf, IsSimpleRead}
use uprobe_tests.Existing.Common.{IsImmediate, IsDeferred}

abbrev pub size : Trace → ℕ
size [] = 0
size (_ ∷ t) = 1 + size t

-- Every format stands for the text `ok`.
abbrev pub render : String → List Arg → List ℕ
render fmt args = codes "ok"

abbrev pub kernel : Kernel
kernel = record {
  alloc = λ t n. 100 + size t;
  new_dir = λ t name. 100 + size t;
  new_file = λ t name dir. 100 + size t;
  copy = λ t n. 0;
  uregister = λ t inode offset usp h. pos 0;
  register = λ t u. pos 0;
  register_ret = λ t u. pos 0;
  init_ret = λ t pid tramp. pos 0;
  path = λ t name. some 7;
  find_vaddr = λ name. 4096;
  lookup_name = λ name. 50;
  vsnprintf = λ n fmt args.
      if ltb n 2147483648
      then record { len = 2; stored = 111 ∷ 107 ∷ 0 ∷ [] }
      else record { len = 0; stored = [] };
}

-- A kernel without memory.
abbrev pub no_memory : Kernel
no_memory = record kernel { alloc = λ t n. 0 }

abbrev pub start : World
start = record {
  trace = [];
  print_buf = none;
  data_file = 0;
  cleanup_file = 0;
  dir = 0;
  entry = 0;
  num_probes = 0;
  oops = false;
}

pub kernel-IsVsnprintf : IsVsnprintf kernel render
kernel-IsVsnprintf = record {
  len = λ n fmt args h. ground arith;
  stored = λ n fmt args h h'. ground arith;
  refused = λ n fmt args h. (ground arith, ground arith);
}

abbrev pub simple_read : SimpleRead
simple_read count ppos bytes available =
    (take (min count (available - ppos)) (drop ppos bytes), ppos + min count (available - ppos))

pub simple_read-IsSimpleRead : IsSimpleRead simple_read
simple_read-IsSimpleRead = record { copies = λ count ppos bytes available h. refl }

pub kernel-IsImmediate : IsImmediate kernel
kernel-IsImmediate = record { uprobe = λ t u. refl; uretprobe = λ t u. refl }

-- The same kernel, for calls from a handler: it puts registrations off.
abbrev pub deferring : Kernel
deferring = record kernel {
  register = λ t u. neg_einprogress;
  register_ret = λ t u. neg_einprogress;
}

pub deferring-IsDeferred : IsDeferred deferring
deferring-IsDeferred = record { uprobe = λ t u. refl; uretprobe = λ t u. refl }
