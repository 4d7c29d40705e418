-- ===== src/Udbgfs/Stream/Invariant.antt =====
-- The invariant of the debugfs file `data` under concurrency: what the reader has is what was printed.
use uprobe_tests.Base.{
  ℕ, ◌+◌, ◌-◌, ◌≤◌, ◌<◌, min, String, ◌≡◌, refl, sym, ap, ◌∙◌, inl, inr, Bool-cases, List, [], ◌∷◌,
  ◌++◌, arith, ◌==◌, length, take, drop, length-append,
}
use mathlib.Core.List.{append-nil, append_assoc}
use uprobe_tests.Kernel.{Arg, Kernel, DataBuf}
use uprobe_tests.Udbgfs.{data_buf_size, fresh_buf, SimpleRead}
use uprobe_tests.Udbgfs.Buffer.{texts, IsVsnprintf, IsSimpleRead}
use uprobe_tests.Udbgfs.Stream.{
  Call, Printer, print_step, Reader, Stream, at_rest, lock, begin_read, read_step, Turn, turn, run,
}
use uprobe_tests.Udbgfs.Stream.Stages.{IsStage, Readable, IsStage-Readable, print_step-IsStage}
use uprobe_tests.Udbgfs.Stream.Cuts.{take-append_short, take_append-take-drop, take-drop_same}

-- What the reader has seen of `bytes_in_buf` was not too much.
abbrev pub HasSeen : Reader → (bytes_in_buf : ℕ) → Type 0
HasSeen (Reader.copying count available) n = available ≤ n
HasSeen _ n = Unit

module _ (render : String → List Arg → List ℕ) where
  abbrev pub text_of : Stream → List ℕ
  text_of s = texts render s.calls

  pub record IsStream (s : Stream) : Type 0 where
    pub stage : IsStage render s.printer s.buf (text_of s)
    pub seen : HasSeen s.reader s.buf.bytes_in_buf
    pub behind : s.ppos ≤ s.buf.bytes_in_buf
    pub prefix : s.got ≡ take s.ppos (text_of s)

  texts-append_one :
      (ps : List Call) (c : Call) → texts render (ps ++ c ∷ []) ≡ texts render ps ++ render c.0 c.1
  unfolding texts
  texts-append_one [] (fmt, args) = append-nil (render fmt args)
  texts-append_one ((f, a) ∷ ps) (fmt, args) =
      rw (texts-append_one ps (fmt, args)) (sym (append_assoc (render f a) (texts render ps) _))

  lock_text :
      (c : Call) (p : Printer) (s : Stream) → length (text_of s) ≤ length (text_of (lock c p s))
  lock_text c Printer.unlocked s = omega (
    arith,
    ap length (texts-append_one s.calls c),
    length-append (texts render s.calls) (render c.0 c.1),
  )
  lock_text c (Printer.locked _) s = omega arith
  lock_text c (Printer.stored _) s = omega arith
  lock_text c (Printer.moved _) s = omega arith
  lock_text c (Printer.counted _) s = omega arith

  begin_read_calls : (count : ℕ) (r : Reader) (s : Stream) → (begin_read count r s).calls ≡ s.calls
  begin_read_calls count Reader.idle s = ground arith
  begin_read_calls count (Reader.nonempty _) s = refl
  begin_read_calls count (Reader.copying _ _) s = refl

  read_step_calls :
      (simple_read : SimpleRead) (r : Reader) (s : Stream)
      → (read_step simple_read r s).calls ≡ s.calls
  unfolding read_step
  read_step_calls simple_read Reader.idle s = refl
  read_step_calls simple_read (Reader.nonempty _) s = refl
  read_step_calls simple_read (Reader.copying _ _) s = refl

  -- The text only grows.
  turn_text :
      (K : Kernel) (simple_read : SimpleRead) (t : Turn) (s : Stream)
      → length (text_of s) ≤ length (text_of (turn K simple_read t s))
  unfolding turn
  turn_text K simple_read (Turn.locks c) s = lock_text c s.printer s
  turn_text K simple_read Turn.prints s = omega arith
  turn_text K simple_read (Turn.begins count) s =
      rw (begin_read_calls count s.reader s) (omega arith)
  turn_text K simple_read Turn.reads s = rw (read_step_calls simple_read s.reader s) (omega arith)

  run_text :
      (K : Kernel) (simple_read : SimpleRead) (ts : List Turn) (s : Stream)
      → length (text_of s) ≤ length (text_of (run K simple_read ts s))
  unfolding run
  run_text K simple_read [] s = omega arith
  run_text K simple_read (t ∷ ts) s =
      omega (arith, turn_text K simple_read t s, run_text K simple_read ts (turn K simple_read t s))

module _ {K : Kernel} {render : String → List Arg → List ℕ} (V : IsVsnprintf K render)
    {simple_read : SimpleRead} (S : IsSimpleRead simple_read) where
  print_step_count :
      (p : Printer) (b : DataBuf) (text : List ℕ)
      → IsStage render p b text
      → length text < data_buf_size
      → b.bytes_in_buf ≤ (print_step K p b).0.bytes_in_buf
  unfolding print_step
  print_step_count Printer.unlocked b text h fits = omega arith
  print_step_count (Printer.locked (fmt, args)) b text h fits = omega arith
  print_step_count (Printer.stored len) b text h fits = omega arith
  print_step_count (Printer.moved len) b text (n, e, h) fits = omega (arith, h.counted, e)
  print_step_count (Printer.counted len) b text h fits = omega arith

  HasSeen-more : (r : Reader) (n m : ℕ) → n ≤ m → HasSeen r n → HasSeen r m
  HasSeen-more Reader.idle n m le h = tt
  HasSeen-more (Reader.nonempty count) n m le h = tt
  HasSeen-more (Reader.copying count available) n m le h = omega arith

  lock-IsStream :
      (c : Call) (p : Printer) (s : Stream)
      → IsStage render p s.buf (text_of render s)
      → IsStream render s
      → length (text_of render s) < data_buf_size
      → IsStream render (lock c p s)
  lock-IsStream (fmt, args) Printer.unlocked s h i fits =
      let text : List ℕ = text_of render s in
      let longer : texts render (s.calls ++ (fmt, args) ∷ []) ≡ text ++ render fmt args =
        texts-append_one render s.calls (fmt, args) in
      record {
        stage = (
          text,
          longer,
          record {
            block = h.block;
            same =
                h.same
                ∙ sym (
                    ap (take (length text)) longer
                    ∙ take-append_short (length text) text (render fmt args) (omega arith));
            cur_at = h.cur_at;
            counted = h.counted;
            left_over = h.left_over;
          },
        );
        seen = i.seen;
        behind = i.behind;
        prefix =
            i.prefix
            ∙ sym (
                ap (take s.ppos) longer
                ∙ take-append_short s.ppos text (render fmt args)
                    (omega (arith, i.behind, h.counted)));
      }
  lock-IsStream c (Printer.locked _) s h i fits = i
  lock-IsStream c (Printer.stored _) s h i fits = i
  lock-IsStream c (Printer.moved _) s h i fits = i
  lock-IsStream c (Printer.counted _) s h i fits = i

  begin_read-IsStream :
      (count : ℕ) (r : Reader) (s : Stream)
      → IsStream render s
      → IsStream render (begin_read count r s)
  begin_read-IsStream count Reader.idle s i = elim (Bool-cases (s.buf.bytes_in_buf == 0)) [
    | inl none ↦ rw none i
    | inr some_bytes ↦
        rw some_bytes (record { stage = i.stage; seen = tt; behind = i.behind; prefix = i.prefix })
  ]
  begin_read-IsStream count (Reader.nonempty _) s i = i
  begin_read-IsStream count (Reader.copying _ _) s i = i

  read_step-IsStream :
      (r : Reader) (s : Stream)
      → HasSeen r s.buf.bytes_in_buf
      → IsStream render s
      → length (text_of render s) < data_buf_size
      → IsStream render (read_step simple_read r s)
  unfolding read_step
  read_step-IsStream Reader.idle s seen i fits = i
  read_step-IsStream (Reader.nonempty count) s seen i fits = record {
    stage = i.stage;
    seen = omega arith;
    behind = i.behind;
    prefix = i.prefix;
  }
  read_step-IsStream (Reader.copying count available) s seen i fits =
      let text : List ℕ = text_of render s in
      let n : ℕ = min count (available - s.ppos) in
      let here : Readable s.buf text = IsStage-Readable V s.printer s.buf text i.stage fits in
      let copied : simple_read count s.ppos s.buf.bytes available
          ≡ (take n (drop s.ppos s.buf.bytes), s.ppos + n) =
        S.copies count s.ppos s.buf.bytes available (omega (arith, here.within, here.block)) in
      let in_count : s.ppos + n ≤ s.buf.bytes_in_buf = omega (arith, i.behind) in
      record {
        stage = i.stage;
        seen = tt;
        behind = rw copied in_count;
        prefix =
            rw
              (
                copied,
                i.prefix,
                take-drop_same s.ppos n s.buf.bytes_in_buf s.buf.bytes text in_count here.true_text,
              )
              (take_append-take-drop s.ppos n text (omega (arith, in_count, here.within)));
      }

  turn-IsStream :
      (t : Turn) (s : Stream)
      → IsStream render s
      → length (text_of render s) < data_buf_size
      → IsStream render (turn K simple_read t s)
  unfolding turn
  turn-IsStream (Turn.locks c) s i fits = lock-IsStream c s.printer s i.stage i fits
  turn-IsStream Turn.prints s i fits =
      let more = print_step_count s.printer s.buf (text_of render s) i.stage fits in
      record {
        stage = print_step-IsStage V s.printer s.buf (text_of render s) i.stage fits;
        seen = HasSeen-more s.reader s.buf.bytes_in_buf _ more i.seen;
        behind = omega (arith, i.behind, more);
        prefix = i.prefix;
      }
  turn-IsStream (Turn.begins count) s i fits = begin_read-IsStream count s.reader s i
  turn-IsStream Turn.reads s i fits = read_step-IsStream s.reader s i.seen i fits

  pub start_lem : (p q : ℕ) → IsStream render (at_rest (fresh_buf p q))
  unfolding texts
  start_lem p q = record {
    stage = record { block = refl; same = refl; cur_at = refl; counted = refl; left_over = refl };
    seen = tt;
    behind = omega arith;
    prefix = refl;
  }

  pub run-IsStream :
      (ts : List Turn) (s : Stream)
      → IsStream render s
      → length (text_of render (run K simple_read ts s)) < data_buf_size
      → IsStream render (run K simple_read ts s)
  unfolding run
  run-IsStream [] s i fits = i
  run-IsStream (t ∷ ts) s i fits =
      let later = run_text render K simple_read ts (turn K simple_read t s) in
      let first = turn_text render K simple_read t s in
      run-IsStream ts (turn K simple_read t s) (turn-IsStream t s i (omega (arith, first, later)))
        fits
