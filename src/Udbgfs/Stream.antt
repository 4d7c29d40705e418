-- ===== src/Udbgfs/Stream.antt =====
-- include/udbgfs.c under concurrency: `test_printk` statement by statement under its spinlock, and a
-- reader of the debugfs file `data`, which takes no lock. Stores are seen in the order of the program.
pub mod Cuts
pub mod Stages
pub mod Invariant
pub mod Order
use uprobe_tests.Base.{
  ℕ, ◌+◌, ◌-◌, ◌%◌, String, ◌≡◌, refl, List, [], ◌∷◌, ◌++◌, ◌==◌, if◌then◌else◌,
}
use uprobe_tests.Kernel.{Arg, Kernel, DataBuf}
use uprobe_tests.Udbgfs.{size_mod, overlay, fresh_buf, print_into, SimpleRead}

abbrev pub Call : Type 0
Call = String × List Arg

-- Who holds the lock and what it does next: it calls `vsnprintf`, moves `cur`, counts the bytes, and
-- then takes them from `bytes_left` and unlocks.
pub data Printer : Type 0 where
  unlocked : Printer
  locked : Call → Printer
  stored moved counted : (len : ℕ) → Printer

-- The reader in `read_data`: before `simple_read_from_buffer`, and in it with the bytes available.
pub data Reader : Type 0 where
  idle : Reader
  nonempty : (count : ℕ) → Reader
  copying : (count available : ℕ) → Reader

-- `calls` has those that took the lock, in order; `got` is what the reads gave so far.
pub record Stream : Type 0 where
  pub buf : DataBuf
  pub printer : Printer
  pub calls : List Call
  pub reader : Reader
  pub ppos : ℕ
  pub got : List ℕ

abbrev pub at_rest : DataBuf → Stream
at_rest b = record {
  buf = b;
  printer = Printer.unlocked;
  calls = [];
  reader = Reader.idle;
  ppos = 0;
  got = [];
}

-- `spin_lock`: it waits while another has the lock.
abbrev pub lock : Call → Printer → Stream → Stream
lock c Printer.unlocked s = record s { printer = Printer.locked c; calls = s.calls ++ c ∷ [] }
lock c _ s = s

module _ (K : Kernel) where
  -- The next statement of `test_printk`.
  unfoldable pub print_step : Printer → DataBuf → DataBuf × Printer
  print_step Printer.unlocked b = (b, Printer.unlocked)
  print_step (Printer.locked (fmt, args)) b =
      let w = K.vsnprintf b.bytes_left fmt args in
      (record b { bytes = overlay b.bytes b.cur w.stored }, Printer.stored w.len)
  print_step (Printer.stored len) b = (record b { cur = b.cur + len }, Printer.moved len)
  print_step (Printer.moved len) b =
      (record b { bytes_in_buf = (b.bytes_in_buf + len) % size_mod }, Printer.counted len)
  print_step (Printer.counted len) b =
      (record b { bytes_left = (b.bytes_left + size_mod - len) % size_mod }, Printer.unlocked)

  -- From the lock to the unlock the statements do what `print_into` does as one step.
  print_step-print_into :
      (fmt : String) (args : List Arg) (b : DataBuf)
      → let p1 = print_step (Printer.locked (fmt, args)) b in
        let p2 = print_step p1.1 p1.0 in
        let p3 = print_step p2.1 p2.0 in
        print_step p3.1 p3.0 ≡ (print_into K b fmt args, Printer.unlocked)
  unfolding print_step print_into
  print_step-print_into fmt args b = refl

-- `if (!print_buf->bytes_in_buf) return 0;`
abbrev pub begin_read : (count : ℕ) → Reader → Stream → Stream
begin_read count Reader.idle s =
    if s.buf.bytes_in_buf == 0 then s else record s { reader = Reader.nonempty count }
begin_read count _ s = s

-- `bytes_in_buf` is read again for the call, which then copies.
unfoldable pub read_step : SimpleRead → Reader → Stream → Stream
read_step simple_read Reader.idle s = s
read_step simple_read (Reader.nonempty count) s = record s {
  reader = Reader.copying count s.buf.bytes_in_buf;
}
read_step simple_read (Reader.copying count available) s =
    let r = simple_read count s.ppos s.buf.bytes available in
    record s { reader = Reader.idle; ppos = r.1; got = s.got ++ r.0 }

-- Whose turn it is.
pub data Turn : Type 0 where
  locks : Call → Turn
  prints : Turn
  begins : (count : ℕ) → Turn
  reads : Turn

module _ (K : Kernel) (simple_read : SimpleRead) where
  unfoldable pub turn : Turn → Stream → Stream
  unfolding print_step read_step
  turn (Turn.locks c) s = lock c s.printer s
  turn Turn.prints s = let p = print_step K s.printer s.buf in record s { buf = p.0; printer = p.1 }
  turn (Turn.begins count) s = begin_read count s.reader s
  turn Turn.reads s = read_step simple_read s.reader s

  unfoldable pub run : List Turn → Stream → Stream
  unfolding turn
  run [] s = s
  run (t ∷ ts) s = run ts (turn t s)
