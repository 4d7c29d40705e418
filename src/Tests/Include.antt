-- ===== src/Tests/Include.antt =====
-- Concrete runs of the print buffer and of the look-up of kernel functions.
use uprobe_tests.Base.{
  ℕ, zero, suc, ltb, ◌+◌, ◌-◌, min, String, ◌≡◌, ◌⊎◌, refl, true, false, not, ◌||◌, ◌&&◌, none,
  some, List, [], ◌∷◌, ◌++◌, arith, ◌==◌, if◌then◌else◌, length, take, drop, pos, minus_one,
}
use uprobe_tests.Kernel.{DataBuf, Arg, Event, Kernel, World}
use uprobe_tests.Udbgfs.{
  data_buf_size, size_mod, fresh_buf, print_into, read_data, u_dbfs_init, u_dbfs_cleanup,
}
use uprobe_tests.Udbgfs.Buffer.{
  print_all, texts, read_data-print_all, print_into_overflow, IsVsnprintf, IsLog,
}
use uprobe_tests.Udbgfs.Lifecycle.{
  IsBalanced, u_dbfs_cleanup-u_dbfs_init, u_dbfs_init_fails, LeftBehind,
}
use uprobe_tests.Udbgfs.Whole.{read_to_end, read_to_end-print_all}
use uprobe_tests.Udbgfs.Cleanup.{writes, writes_once}
use uprobe_tests.Resolve.{Config, Pointers, init_uprobe}
use uprobe_tests.Resolve.Laws.{found, init_uprobe-found}
use uprobe_tests.Tests.{
  render, kernel, no_memory, start, simple_read, kernel-IsVsnprintf, simple_read-IsSimpleRead,
}

abbrev two_prints : List (String × List Arg)
two_prints = ("ncalls=%d\n", Arg.num 3 ∷ []) ∷ ("OK\n", []) ∷ []

read_data-print_all_example :
    ((read_data simple_read (print_all kernel (fresh_buf 1 2) two_prints) 10 1).0
      ≡ take 10 (drop 1 (texts render two_prints)))
    × ((read_data simple_read (print_all kernel (fresh_buf 1 2) two_prints) 10 1).1
        ≡ 1 + min 10 (length (texts render two_prints) - 1))
unfolding texts
read_data-print_all_example =
    read_data-print_all simple_read-IsSimpleRead kernel-IsVsnprintf 1 2 two_prints 10 1
      (omega arith)

read_to_end-print_all_example :
    read_to_end simple_read (print_all kernel (fresh_buf 1 2) two_prints) 20 3 0
    ≡ some (texts render two_prints)
unfolding texts
read_to_end-print_all_example =
    read_to_end-print_all simple_read-IsSimpleRead kernel-IsVsnprintf 1 2 two_prints 20 3
      (omega arith) (omega arith) (omega arith)

u_dbfs_cleanup-u_dbfs_init_example :
    IsBalanced [] (u_dbfs_cleanup (u_dbfs_init kernel "pong" start).1).1.trace
    × ((u_dbfs_cleanup (u_dbfs_init kernel "pong" start).1).1.print_buf ≡ none)
    × ((u_dbfs_cleanup (u_dbfs_init kernel "pong" start).1).1.oops ≡ false)
unfolding u_dbfs_init
u_dbfs_cleanup-u_dbfs_init_example = u_dbfs_cleanup-u_dbfs_init kernel "pong" start refl

u_dbfs_init_fails_example :
    ((((u_dbfs_init no_memory "pong" start).1.dir ≡ 0)
        ⊎ ((u_dbfs_init no_memory "pong" start).1.data_file ≡ 0))
      × IsBalanced [] (u_dbfs_init no_memory "pong" start).1.trace)
    ⊎ LeftBehind no_memory "pong" start
unfolding u_dbfs_init
u_dbfs_init_fails_example = u_dbfs_init_fails no_memory "pong" start (ground arith)

-- `child_exit` that only counts.
abbrev count_exits : World → Unit {0} × World
count_exits w = (tt, record w { num_probes = w.num_probes + 1 })

writes_once_example : writes kernel count_exits (40 ∷ 2 ∷ []) start ≡ (
    let left = kernel.copy start.trace (min 40 31) in
    let first = record start {
      entry = 1;
      trace = Event.copy_from_user (min 40 31) left ∷ start.trace;
    } in
    if left == 0 then (count_exits first).1 else first)
writes_once_example = writes_once kernel count_exits 40 (2 ∷ []) start (λ v. refl) refl

abbrev nothing_exported : Config
nothing_exported = record {
  regset_view_exported = false;
  utrace_regset = false;
  register_exported = false;
  unregister_exported = false;
  get_swbp_addr_exported = false;
}

abbrev no_pointers : Pointers
no_pointers = record { regset_view = 0; register = 0; unregister = 0; get_swbp_addr = 0 }

init_uprobe-found_example : (init_uprobe kernel.lookup_name nothing_exported no_pointers).0 ≡ (
    if found kernel.lookup_name false "uprobe_register" "register_uprobe"
      && found kernel.lookup_name false "uprobe_unregister" "unregister_uprobe"
      && (false || not (kernel.lookup_name "uprobe_get_swbp_addr" == 0))
    then pos 0
    else minus_one)
init_uprobe-found_example = init_uprobe-found kernel.lookup_name nothing_exported no_pointers

-- Every format stands for a text of 2000 bytes.
abbrev bytes_of : ℕ → List ℕ
bytes_of zero = []
bytes_of (suc n) = 120 ∷ bytes_of n

abbrev long_text : String → List Arg → List ℕ
long_text fmt args = bytes_of 2000

abbrev talkative : Kernel
talkative = record kernel {
  vsnprintf = λ n fmt args.
      if ltb n 2147483648
      then record {
        len = 2000;
        stored =
            if ltb 2000 n then bytes_of 2000 ++ 0 ∷ [] else take (n - 1) (bytes_of 2000) ++ 0 ∷ [];
      }
      else record { len = 0; stored = [] };
}

talkative-IsVsnprintf : IsVsnprintf talkative long_text
talkative-IsVsnprintf = record {
  len = λ n fmt args h. let two : length (bytes_of 2000) ≡ 2000 = refl in ground (arith, two);
  stored = λ n fmt args h h'.
      let two : length (bytes_of 2000) ≡ 2000 = refl in
      let small : ltb n 2147483648 ≡ true = ground arith in
      let fits : ltb 2000 n ≡ true = ground (arith, two) in rw (small, fits) refl;
  refused = λ n fmt args h. (ground arith, ground arith);
}

fresh_buf-IsLog : IsLog (fresh_buf 1 2) []
fresh_buf-IsLog = record { block = refl; count = refl; cur = refl; left = refl; text = refl }

abbrev spent : DataBuf
spent = print_into talkative (fresh_buf 1 2) "%s\n" []

abbrev spent_later : DataBuf
spent_later = print_all talkative spent (("%s\n", []) ∷ [])

print_into_overflow_example :
    (spent.bytes_in_buf ≡ 0 + length (bytes_of 2000))
    × (spent.bytes_left + (0 + length (bytes_of 2000)) ≡ size_mod + data_buf_size)
    × (spent_later.bytes ≡ spent.bytes)
    × (spent_later.cur ≡ spent.cur)
    × (spent_later.bytes_in_buf ≡ spent.bytes_in_buf)
    × (spent_later.bytes_left ≡ spent.bytes_left)
print_into_overflow_example =
    let two : length (bytes_of 2000) ≡ 2000 = refl in
    print_into_overflow talkative-IsVsnprintf (fresh_buf 1 2) [] "%s\n" [] (("%s\n", []) ∷ [])
      fresh_buf-IsLog (omega (arith, two)) (omega (arith, two))
