-- ===== src/Udbgfs/Stream/Stages.antt =====
-- What holds of the print buffer at each statement of `test_printk`, and that a statement keeps it.
use uprobe_tests.Base.{
  ℕ, ◌+◌, ◌≤◌, ◌<◌, String, ◌≡◌, ap, ◌∙◌, List, [], ◌∷◌, ◌++◌, arith, length, take, length-append,
  take-length, take-length_append,
}
use uprobe_tests.Kernel.{Arg, Kernel, DataBuf}
use uprobe_tests.Udbgfs.{data_buf_size}
use uprobe_tests.Udbgfs.Buffer.{IsVsnprintf, length-overlay, take-overlay}
use uprobe_tests.Udbgfs.Stream.Cuts.{take-take}
use uprobe_tests.Udbgfs.Stream.{Printer, print_step}

-- The first `stored` bytes of the block are those of the text; `cur`, `bytes_in_buf` and `bytes_left`
-- stand for the lengths given.
pub record Holds (b : DataBuf) (text : List ℕ) (stored cur count left : ℕ) : Type 0 where
  pub block : length b.bytes ≡ data_buf_size
  pub same : take stored b.bytes ≡ take stored text
  pub cur_at : b.cur ≡ cur
  pub counted : b.bytes_in_buf ≡ count
  pub left_over : b.bytes_left + left ≡ data_buf_size

-- What a reader may rely on at any stage: the bytes that are counted are those of the text.
pub record Readable (b : DataBuf) (text : List ℕ) : Type 0 where
  pub within : b.bytes_in_buf ≤ length text
  pub block : length b.bytes ≡ data_buf_size
  pub true_text : take b.bytes_in_buf b.bytes ≡ take b.bytes_in_buf text

module _ (render : String → List Arg → List ℕ) where
  -- `text` is that of all calls that took the lock.
  abbrev pub IsStage : Printer → DataBuf → List ℕ → Type 0
  IsStage Printer.unlocked b text =
      Holds b text (length text) (length text) (length text) (length text)
  IsStage (Printer.locked (fmt, args)) b text =
      (before : List ℕ) × (text ≡ before ++ render fmt args)
      × Holds b text (length before) (length before) (length before) (length before)
  IsStage (Printer.stored len) b text =
      (n : ℕ) × (n + len ≡ length text) × Holds b text (length text) n n n
  IsStage (Printer.moved len) b text =
      (n : ℕ) × (n + len ≡ length text) × Holds b text (length text) (length text) n n
  IsStage (Printer.counted len) b text =
      (n : ℕ) × (n + len ≡ length text) × Holds b text (length text) (length text) (length text) n

-- How much of the text is not counted yet.
abbrev pub under_way : (String → List Arg → List ℕ) → Printer → ℕ
under_way render Printer.unlocked = 0
under_way render (Printer.locked (fmt, args)) = length (render fmt args)
under_way render (Printer.stored len) = len
under_way render (Printer.moved len) = len
under_way render (Printer.counted len) = 0

pub IsStage-under_way :
    (render : String → List Arg → List ℕ) (p : Printer) (b : DataBuf) (text : List ℕ)
    → IsStage render p b text
    → b.bytes_in_buf + under_way render p ≡ length text
IsStage-under_way render Printer.unlocked b text h = omega (arith, h.counted)
IsStage-under_way render (Printer.locked (fmt, args)) b text (before, e, h) =
    omega (arith, h.counted, ap length e, length-append before (render fmt args))
IsStage-under_way render (Printer.stored len) b text (n, e, h) = omega (arith, h.counted)
IsStage-under_way render (Printer.moved len) b text (n, e, h) = omega (arith, h.counted)
IsStage-under_way render (Printer.counted len) b text (n, e, h) = omega (arith, h.counted)

pub Holds-Readable :
    {b : DataBuf} {text : List ℕ} {stored cur count left : ℕ}
    → Holds b text stored cur count left
    → count ≤ stored
    → stored ≤ length text
    → length text ≤ data_buf_size
    → Readable b text
Holds-Readable {b} {text} {stored} h le in_text fits = record {
  within = omega (arith, h.counted);
  block = h.block;
  true_text = take-take b.bytes_in_buf stored b.bytes text (omega (arith, h.counted)) h.same;
}

module _ {K : Kernel} {render : String → List Arg → List ℕ} (V : IsVsnprintf K render) where
  pub IsStage-Readable :
      (p : Printer) (b : DataBuf) (text : List ℕ)
      → IsStage render p b text
      → length text < data_buf_size
      → Readable b text
  IsStage-Readable Printer.unlocked b text h fits =
      Holds-Readable h (omega arith) (omega arith) (omega arith)
  IsStage-Readable (Printer.locked (fmt, args)) b text (before, e, h) fits =
      let longer : length text ≡ length before + length (render fmt args) =
        ap length e ∙ length-append before (render fmt args) in
      Holds-Readable h (omega arith) (omega (arith, longer)) (omega arith)
  IsStage-Readable (Printer.stored len) b text (n, e, h) fits =
      Holds-Readable h (omega (arith, e)) (omega arith) (omega arith)
  IsStage-Readable (Printer.moved len) b text (n, e, h) fits =
      Holds-Readable h (omega (arith, e)) (omega arith) (omega arith)
  IsStage-Readable (Printer.counted len) b text (n, e, h) fits =
      Holds-Readable h (omega arith) (omega arith) (omega arith)

  store_text :
      (fmt : String) (args : List Arg) (b : DataBuf) (before : List ℕ)
      → length before + length (render fmt args) < data_buf_size
      → Holds b
          (before ++ render fmt args)
          (length before)
          (length before)
          (length before)
          (length before)
      → IsStage render
          (print_step K (Printer.locked (fmt, args)) b).1
          (print_step K (Printer.locked (fmt, args)) b).0
          (before ++ render fmt args)
  unfolding print_step
  store_text fmt args b before fits h =
      let r : List ℕ = render fmt args in
      let len : (K.vsnprintf b.bytes_left fmt args).len ≡ length r =
        V.len b.bytes_left fmt args (omega (arith, h.left_over)) in
      let stored : (K.vsnprintf b.bytes_left fmt args).stored ≡ r ++ 0 ∷ [] =
        V.stored b.bytes_left fmt args (omega (arith, h.left_over)) (omega (arith, h.left_over)) in
      let both : length (before ++ r) ≡ length before + length r = length-append before r in
      (
        length before,
        omega (arith, len, both),
        record {
          block = length-overlay b.bytes b.cur _ ∙ h.block;
          same =
              rw (take-length (before ++ r), both, stored)
                (take-overlay b.bytes b.cur r 0 (length before + length r) (omega (arith, h.cur_at))
                    (omega (arith, h.block))
                  ∙ rw (h.cur_at, h.same, take-length_append before r));
          cur_at = h.cur_at;
          counted = h.counted;
          left_over = h.left_over;
        },
      )

  -- Every statement under the lock leads from its stage to the next.
  pub print_step-IsStage :
      (p : Printer) (b : DataBuf) (text : List ℕ)
      → IsStage render p b text
      → length text < data_buf_size
      → IsStage render (print_step K p b).1 (print_step K p b).0 text
  unfolding print_step
  print_step-IsStage Printer.unlocked b text h fits = h
  print_step-IsStage (Printer.locked (fmt, args)) b text (before, e, h) fits = rw e (
      store_text fmt args b before
        (omega (arith, fits, ap length e, length-append before (render fmt args))) (rw e at h))
  print_step-IsStage (Printer.stored len) b text (n, e, h) fits = (
    n,
    e,
    record {
      block = h.block;
      same = h.same;
      cur_at = omega (arith, h.cur_at, e);
      counted = h.counted;
      left_over = h.left_over;
    },
  )
  print_step-IsStage (Printer.moved len) b text (n, e, h) fits = (
    n,
    e,
    record {
      block = h.block;
      same = h.same;
      cur_at = h.cur_at;
      counted = omega (arith, h.counted, e);
      left_over = h.left_over;
    },
  )
  print_step-IsStage (Printer.counted len) b text (n, e, h) fits = record {
    block = h.block;
    same = h.same;
    cur_at = h.cur_at;
    counted = h.counted;
    left_over = omega (arith, h.left_over, e);
  }
