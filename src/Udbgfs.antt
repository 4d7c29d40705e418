-- ===== src/Udbgfs.antt =====
-- include/udbgfs.c: the print buffer behind the debugfs file `data`, and the file `cleanup`.
pub mod Buffer
pub mod Lifecycle
pub mod Session
pub mod Cleanup
pub mod Whole
pub mod Stream
pub mod Shows
use uprobe_tests.Base.{
  ℕ, zero, suc, ◌+◌, ◌-◌, ◌%◌, ◌^◌, String, min, ◌≡◌, Bool, true, false, not, ◌||◌, Option, none,
  some, List, [], ◌∷◌, ◌==◌, if◌then◌else◌, is_some, ℤ, pos, is_neg, minus_one, neg_enomem,
  neg_einval,
}
use uprobe_tests.Kernel.{
  Arg, Event, Kernel, World, DataBuf, Io, pure, ◌>>=◌, ◌>>◌, call, kmalloc_call, create_dir_call,
  create_file_call, copy_call,
}

abbrev pub data_buf_size : ℕ
data_buf_size = 1024

-- `sizeof(print_buf)`, the size of a pointer on x86_64; `struct data_buf_info` would need more.
abbrev pub sizeof_print_buf : ℕ
sizeof_print_buf = 8

-- `size_t` has 64 bits.
abbrev pub size_mod : ℕ
size_mod = 2 ^ 64

-- The bytes `src` laid over the block `dst` from `at` on; what would lie behind the block is lost.
unfoldable pub overlay : List ℕ → ℕ → List ℕ → List ℕ
overlay [] at src = []
overlay (b ∷ dst) at [] = b ∷ dst
overlay (b ∷ dst) zero (c ∷ src) = c ∷ overlay dst zero src
overlay (b ∷ dst) (suc at) (c ∷ src) = b ∷ overlay dst at (c ∷ src)

abbrev pub zeros : ℕ → List ℕ
zeros zero = []
zeros (suc n) = 0 ∷ zeros n

-- The buffer as `set_up_print_buffer` leaves it; what `kmalloc` left in the block is of no matter.
abbrev pub fresh_buf : ℕ → ℕ → DataBuf
fresh_buf p q = record {
  ptr = p;
  bytes_in_buf = 0;
  bytes_left = data_buf_size;
  cur = 0;
  data_ptr = q;
  bytes = zeros data_buf_size;
}

module _ (K : Kernel) where
  -- The body of `test_printk` under the lock.
  unfoldable pub print_into : DataBuf → String → List Arg → DataBuf
  print_into b fmt args =
      let w = K.vsnprintf b.bytes_left fmt args in
      record b {
        bytes = overlay b.bytes b.cur w.stored;
        cur = b.cur + w.len;
        bytes_in_buf = (b.bytes_in_buf + w.len) % size_mod;
        bytes_left = (b.bytes_left + size_mod - w.len) % size_mod;
      }

  abbrev pub printed_buf : Option DataBuf → String → List Arg → Option DataBuf
  printed_buf none fmt args = none
  printed_buf (some b) fmt args = some (print_into b fmt args)

  abbrev pub printed_len : Option DataBuf → String → List Arg → ℕ
  printed_len none fmt args = 0
  printed_len (some b) fmt args = (K.vsnprintf b.bytes_left fmt args).len

  abbrev pub test_printk : String → List Arg → Io ℕ
  test_printk fmt args w = (
    printed_len w.print_buf fmt args,
    record w {
      print_buf = printed_buf w.print_buf fmt args;
      oops = w.oops || not (is_some w.print_buf);
    },
  )

  -- `-ENOMEM` where a block is missing. `lock` is not kept: the body of `test_printk` is one step.
  unfoldable pub set_up_print_buffer : Io ℤ
  set_up_print_buffer = do
    p ← kmalloc_call K sizeof_print_buf
    if p == 0 then (λ w. (neg_enomem, record w { print_buf = none })) else do
      q ← kmalloc_call K data_buf_size
      if q == 0
          then (call (Event.kfree p) >> λ w. (neg_enomem, record w { print_buf = none }))
          else λ w. (pos 0, record w { print_buf = some (fresh_buf p q) })

  unfoldable pub u_dbfs_init : String → Io ℤ
  unfolding set_up_print_buffer
  u_dbfs_init path = do
    d ← create_dir_call K path
    (λ w. (tt, record w { dir = d }))
    if d == 0 then pure minus_one else do
      f ← create_file_call K "data" d
      (λ w. (tt, record w { data_file = f }))
      if f == 0 then (call (Event.remove d) >> pure minus_one) else do
        r ← set_up_print_buffer
        if is_neg r then pure minus_one else do
          c ← create_file_call K "cleanup" d
          (λ w. (tt, record w { cleanup_file = c }))
          pure (pos 0)

abbrev free_buf : Option DataBuf → Io (Unit {0})
free_buf none w = (tt, record w { oops = true })
free_buf (some b) w =
    if b.data_ptr == 0
    then (tt, w)
    else (do
      call (Event.kfree b.data_ptr)
      call (Event.kfree b.ptr)
      (λ w. (tt, record w { print_buf = none })))
        w

unfoldable pub clean_up_print_buffer : Io (Unit {0})
clean_up_print_buffer w = free_buf w.print_buf w

abbrev remove_if : ℕ → Io (Unit {0})
remove_if d = if d == 0 then pure tt else call (Event.remove d)

unfoldable pub u_dbfs_cleanup : Io (Unit {0})
unfolding clean_up_print_buffer
u_dbfs_cleanup = do
  (λ w. remove_if w.data_file w)
  (λ w. remove_if w.cleanup_file w)
  (λ w. remove_if w.dir w)
  clean_up_print_buffer

-- `simple_read_from_buffer`: the count and position asked for, the bytes at `data` and how many of
-- them there are; the answer is what reaches the user, and the new position.
abbrev pub SimpleRead : Type 0
SimpleRead = ℕ → ℕ → List ℕ → ℕ → List ℕ × ℕ

unfoldable pub read_data : SimpleRead → DataBuf → ℕ → ℕ → List ℕ × ℕ
read_data simple_read b count ppos =
    if b.bytes_in_buf == 0 then ([], ppos) else simple_read count ppos b.bytes b.bytes_in_buf

-- `child_exit` is the including module's.
unfoldable pub write_cleanup : Kernel → Io (Unit {0}) → ℕ → Io ℤ
write_cleanup K child_exit count w =
    if not (w.entry == 0)
    then (pos count, w)
    else (do
      n ← copy_call K (min count 31)
      if not (n == 0) then pure neg_einval else (child_exit >> pure (pos count)))
        (record w { entry = w.entry + 1 })
