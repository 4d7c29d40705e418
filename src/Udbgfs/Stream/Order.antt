-- ===== src/Udbgfs/Stream/Order.antt =====
-- A reader of the debugfs file `data` beside calls of `test_printk`: what it gets.
use uprobe_tests.Base.{
  ℕ, zero, suc, ◌-◌, ◌<◌, String, ◌≡◌, refl, sym, ap, ◌∙◌, some, List, ◌++◌, arith, length, take,
  drop,
}
use uprobe_tests.Kernel.{Arg, Kernel, DataBuf}
use uprobe_tests.Udbgfs.{data_buf_size, fresh_buf, SimpleRead, read_data}
use uprobe_tests.Udbgfs.Buffer.{texts, IsVsnprintf, IsSimpleRead}
use uprobe_tests.Udbgfs.Whole.{then_rest, read_to_end, read_to_end-IsLog, length-drop}
use uprobe_tests.Udbgfs.Stream.{Stream, at_rest, Turn, run}
use uprobe_tests.Udbgfs.Stream.Stages.{Readable, IsStage-Readable, under_way, IsStage-under_way}
use uprobe_tests.Udbgfs.Stream.Cuts.{three_parts, length-take}
use uprobe_tests.Udbgfs.Stream.Invariant.{text_of, IsStream, run-IsStream, start_lem}

-- A read looks at the block and its count alone.
abbrev as_log : DataBuf → DataBuf
as_log b = record b { cur = b.bytes_in_buf; bytes_left = data_buf_size - b.bytes_in_buf }

read_to_end-as_log :
    (simple_read : SimpleRead) (b : DataBuf) (reads count ppos : ℕ)
    → read_to_end simple_read b reads count ppos
      ≡ read_to_end simple_read (as_log b) reads count ppos
unfolding read_to_end read_data
read_to_end-as_log simple_read b zero count ppos = refl
read_to_end-as_log simple_read b (suc n) count ppos =
    ap (then_rest (read_data simple_read b count ppos).0)
      (read_to_end-as_log simple_read b n count (read_data simple_read b count ppos).1)

module _ {K : Kernel} {render : String → List Arg → List ℕ} (V : IsVsnprintf K render)
    {simple_read : SimpleRead} (S : IsSimpleRead simple_read) where
  -- What is counted can be read to the end, also while the other counters lag behind.
  pub read_to_end-Readable :
      (b : DataBuf) (text : List ℕ) (reads c ppos : ℕ)
      → Readable b text
      → length text < data_buf_size
      → length text < reads
      → read_to_end simple_read b reads (suc c) ppos ≡ some (drop ppos (take b.bytes_in_buf text))
  read_to_end-Readable b text reads c ppos here fits enough =
      let counted : length (take b.bytes_in_buf text) ≡ b.bytes_in_buf =
        length-take b.bytes_in_buf text here.within in
      read_to_end-as_log simple_read b reads (suc c) ppos
      ∙ read_to_end-IsLog S (as_log b) (take b.bytes_in_buf text) reads c ppos
          (record {
            block = here.block;
            count = sym counted;
            cur = sym counted;
            left = omega (arith, counted, here.within);
            text = rw counted here.true_text;
          })
          (omega (arith, counted, here.within))

  -- A reader needs no lock. Calls of `test_printk` and reads of the open file are run statement by
  -- statement, in any order that the spinlock allows. Whenever one stops, what the reads gave is the
  -- text of the calls up to the position reached, and reads from there to the end give what follows, up
  -- to the text of the call under way, if one is: nothing is lost, repeated or torn. The texts fit
  -- the block with one byte to spare, and one read more than there are bytes is enough.
  pub reads-printed :
      (p q : ℕ) (ts : List Turn) (reads count : ℕ)
      → length (texts render (run K simple_read ts (at_rest (fresh_buf p q))).calls) < data_buf_size
      → length (texts render (run K simple_read ts (at_rest (fresh_buf p q))).calls) < reads
      → 0 < count
      → let s = run K simple_read ts (at_rest (fresh_buf p q)) in
        (s.got ≡ take s.ppos (texts render s.calls))
        × (rest : List ℕ) × (pending : List ℕ) × (read_to_end simple_read s.buf reads count s.ppos
            ≡ some rest)
        × (length pending ≡ under_way render s.printer)
        × (s.got ++ (rest ++ pending) ≡ texts render s.calls)
  reads-printed p q ts reads zero fits enough some_bytes = absurd (omega arith)
  reads-printed p q ts reads (suc c) fits enough some_bytes =
      let s : Stream = run K simple_read ts (at_rest (fresh_buf p q)) in
      let i : IsStream render s =
        run-IsStream V S ts (at_rest (fresh_buf p q)) (start_lem V S p q) fits in
      let text : List ℕ = text_of render s in
      let here : Readable s.buf text = IsStage-Readable V s.printer s.buf text i.stage fits in
      let amount = IsStage-under_way render s.printer s.buf text i.stage in
      (
        i.prefix,
        drop s.ppos (take s.buf.bytes_in_buf text),
        drop s.buf.bytes_in_buf text,
        read_to_end-Readable s.buf text reads c s.ppos here fits enough,
        omega (arith, length-drop s.buf.bytes_in_buf text, amount),
        rw i.prefix (three_parts s.ppos s.buf.bytes_in_buf text i.behind),
      )
