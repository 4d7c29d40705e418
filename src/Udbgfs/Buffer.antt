-- ===== src/Udbgfs/Buffer.antt =====
-- The print buffer of include/udbgfs.c against a log: `test_printk` appends, `read_data` reads.
use uprobe_tests.Base.{
  ℕ, zero, suc, ◌+◌, ◌-◌, ◌^◌, ◌≤◌, ◌<◌, min, String, ◌≡◌, refl, sym, ap, ◌∙◌, inl, inr, List, [],
  ◌∷◌, ◌++◌, arith, length, take, drop, length-append, ◌==◌, Bool-cases,
}
use mathlib.Core.List.{append-nil, append_assoc}
use uprobe_tests.Kernel.{Arg, Kernel, DataBuf}
use uprobe_tests.Udbgfs.{
  data_buf_size, size_mod, overlay, fresh_buf, print_into, SimpleRead, read_data,
}

-- `vsnprintf` as the kernel documents it, over the text `render` that a format stands for: it
-- returns the length of the text, whether or not that fits, and refuses a size above INT_MAX.
pub record IsVsnprintf (K : Kernel) (render : String → List Arg → List ℕ) : Type 0 where
  pub len :
      (size : ℕ) (fmt : String) (args : List Arg)
      → size < 2 ^ 31
      → (K.vsnprintf size fmt args).len ≡ length (render fmt args)
  pub stored :
      (size : ℕ) (fmt : String) (args : List Arg)
      → size < 2 ^ 31
      → length (render fmt args) < size
      → (K.vsnprintf size fmt args).stored ≡ render fmt args ++ 0 ∷ []
  pub refused :
      (size : ℕ) (fmt : String) (args : List Arg)
      → 2 ^ 31 ≤ size
      → ((K.vsnprintf size fmt args).len ≡ 0) × ((K.vsnprintf size fmt args).stored ≡ [])

-- The buffer holds the text `log` from its start, and its counters agree with that.
pub record IsLog (b : DataBuf) (log : List ℕ) : Type 0 where
  pub block : length b.bytes ≡ data_buf_size
  pub count : b.bytes_in_buf ≡ length log
  pub cur : b.cur ≡ length log
  pub left : b.bytes_left + length log ≡ data_buf_size
  pub text : take (length log) b.bytes ≡ log

pub fresh_buf-IsLog : (p q : ℕ) → IsLog (fresh_buf p q) []
fresh_buf-IsLog p q = record { block = refl; count = refl; cur = refl; left = refl; text = refl }

pub length-overlay :
    (dst : List ℕ) (at : ℕ) (src : List ℕ) → length (overlay dst at src) ≡ length dst
unfolding overlay
length-overlay [] at src = refl
length-overlay (b ∷ dst) at [] = refl
length-overlay (b ∷ dst) zero (c ∷ src) = ap suc (length-overlay dst zero src)
length-overlay (b ∷ dst) (suc at) (c ∷ src) = ap suc (length-overlay dst at (c ∷ src))

overlay-nil : (dst : List ℕ) (at : ℕ) → overlay dst at [] ≡ dst
unfolding overlay
overlay-nil [] at = refl
overlay-nil (b ∷ dst) at = refl

pub take-overlay :
    (dst : List ℕ) (at : ℕ) (s : List ℕ) (z : ℕ) (n : ℕ)
    → n ≡ at + length s
    → n ≤ length dst
    → take n (overlay dst at (s ++ z ∷ [])) ≡ take at dst ++ s
unfolding overlay
take-overlay dst zero [] z zero e h = refl
take-overlay dst zero (c ∷ s) z zero e h = absurd (omega arith)
take-overlay dst (suc at) s z zero e h = absurd (omega arith)
take-overlay [] at s z (suc n) e h = absurd (omega arith)
take-overlay (x ∷ dst) zero [] z (suc n) e h = absurd (omega arith)
take-overlay (x ∷ dst) zero (c ∷ s) z (suc n) e h =
    ap (◌∷◌ c) (take-overlay dst zero s z n (omega arith) (omega arith))
take-overlay (x ∷ dst) (suc at) [] z (suc n) e h =
    ap (◌∷◌ x) (take-overlay dst at [] z n (omega arith) (omega arith))
take-overlay (x ∷ dst) (suc at) (c ∷ s) z (suc n) e h =
    ap (◌∷◌ x) (take-overlay dst at (c ∷ s) z n (omega arith) (omega arith))

-- The buffer after a sequence of calls of `test_printk`, and the text of those calls.
pub print_all : Kernel → DataBuf → List (String × List Arg) → DataBuf
print_all K b [] = b
print_all K b ((fmt, args) ∷ ps) = print_all K (print_into K b fmt args) ps

unfoldable pub texts : (String → List Arg → List ℕ) → List (String × List Arg) → List ℕ
texts render [] = []
texts render ((fmt, args) ∷ ps) = render fmt args ++ texts render ps

pub texts-append :
    (render : String → List Arg → List ℕ) (ps qs : List (String × List Arg))
    → texts render (ps ++ qs) ≡ texts render ps ++ texts render qs
unfolding texts
texts-append render [] qs = refl
texts-append render ((fmt, args) ∷ ps) qs =
    rw (texts-append render ps qs)
      (sym (append_assoc (render fmt args) (texts render ps) (texts render qs)))

module _ {K : Kernel} {render : String → List Arg → List ℕ} (V : IsVsnprintf K render) where
  -- While the text still fits with its NUL, `test_printk` appends it to the log.
  pub print_into-IsLog :
      (b : DataBuf) (log : List ℕ) (fmt : String) (args : List Arg)
      → IsLog b log
      → length log + length (render fmt args) < data_buf_size
      → IsLog (print_into K b fmt args) (log ++ render fmt args)
  unfolding print_into
  print_into-IsLog b log fmt args is fits =
      let r : List ℕ = render fmt args in
      let len : (K.vsnprintf b.bytes_left fmt args).len ≡ length r =
        V.len b.bytes_left fmt args (omega (arith, is.left)) in
      let stored : (K.vsnprintf b.bytes_left fmt args).stored ≡ r ++ 0 ∷ [] =
        V.stored b.bytes_left fmt args (omega (arith, is.left)) (omega (arith, is.left)) in
      let both : length (log ++ r) ≡ length log + length r = length-append log r in
      record {
        block = length-overlay b.bytes b.cur _ ∙ is.block;
        count = omega (arith, is.count, len, both);
        cur = omega (arith, is.cur, len, both);
        left = omega (arith, is.left, len, both);
        text =
            rw (both, stored)
              (take-overlay b.bytes b.cur r 0 (length log + length r) (omega (arith, is.cur))
                  (omega (arith, is.block))
                ∙ rw (is.cur, is.text));
      }

  -- The counters have passed the end of the block: every later text is refused.
  Spent : DataBuf → Type 0
  Spent b = (2 ^ 31 ≤ b.bytes_left) × (b.bytes_left < size_mod) × (b.bytes_in_buf < size_mod)

  print_all-Spent :
      (b : DataBuf) (ps : List (String × List Arg))
      → Spent b
      → ((print_all K b ps).bytes ≡ b.bytes)
        × ((print_all K b ps).cur ≡ b.cur)
        × ((print_all K b ps).bytes_in_buf ≡ b.bytes_in_buf)
        × ((print_all K b ps).bytes_left ≡ b.bytes_left)
  unfolding print_all print_into Spent
  print_all-Spent b [] spent = (refl, refl, refl, refl)
  print_all-Spent b ((fmt, args) ∷ ps) spent =
      let (no_len, none_stored) = V.refused b.bytes_left fmt args spent.0 in
      let same_left : (print_into K b fmt args).bytes_left ≡ b.bytes_left =
        omega (arith, no_len, spent.1) in
      let same_count : (print_into K b fmt args).bytes_in_buf ≡ b.bytes_in_buf =
        omega (arith, no_len, spent.2) in
      let (bytes, cur, count, left) = print_all-Spent (print_into K b fmt args) ps (
        omega (arith, same_left, spent.0),
        omega (arith, same_left, spent.1),
        omega (arith, same_count, spent.2),
      ) in
      (
        bytes ∙ rw none_stored (overlay-nil b.bytes b.cur),
        cur ∙ omega (arith, no_len),
        count ∙ same_count,
        left ∙ same_left,
      )

  -- A text that reaches past the block is counted in full: `bytes_in_buf` is then the length of all
  -- texts so far, more than the block has, and `bytes_left` has wrapped at 2 ^ 64. Whatever
  -- is printed after that, the block, `cur`, `bytes_in_buf` and `bytes_left` stay as they are. The text
  -- is shorter than 2 ^ 31 bytes, and those before it fit the block with one byte to spare.
  pub print_into_overflow :
      (b : DataBuf) (log : List ℕ) (fmt : String) (args : List Arg) (ps : List (String × List Arg))
      → IsLog b log
      → data_buf_size < length log + length (render fmt args)
      → length (render fmt args) < 2 ^ 31
      → ((print_into K b fmt args).bytes_in_buf ≡ length log + length (render fmt args))
        × ((print_into K b fmt args).bytes_left + (length log + length (render fmt args))
            ≡ size_mod + data_buf_size)
        × ((print_all K (print_into K b fmt args) ps).bytes ≡ (print_into K b fmt args).bytes)
        × ((print_all K (print_into K b fmt args) ps).cur ≡ (print_into K b fmt args).cur)
        × ((print_all K (print_into K b fmt args) ps).bytes_in_buf
            ≡ (print_into K b fmt args).bytes_in_buf)
        × ((print_all K (print_into K b fmt args) ps).bytes_left
            ≡ (print_into K b fmt args).bytes_left)
  unfolding print_into Spent
  print_into_overflow b log fmt args ps is over small =
      let len : (K.vsnprintf b.bytes_left fmt args).len ≡ length (render fmt args) =
        V.len b.bytes_left fmt args (omega (arith, is.left)) in
      let (bytes, cur, count, left) = print_all-Spent (print_into K b fmt args) ps (
        omega (arith, is.count, is.left, len),
        omega (arith, is.count, is.left, len),
        omega (arith, is.count, is.left, len),
      ) in
      (
        omega (arith, is.count, is.left, len),
        omega (arith, is.count, is.left, len),
        bytes,
        cur,
        count,
        left,
      )

  pub print_all-IsLog :
      (b : DataBuf) (log : List ℕ) (ps : List (String × List Arg))
      → IsLog b log
      → length log + length (texts render ps) < data_buf_size
      → IsLog (print_all K b ps) (log ++ texts render ps)
  unfolding print_all texts
  print_all-IsLog b log [] is fits = rw append-nil is
  print_all-IsLog b log ((fmt, args) ∷ ps) is fits =
      let both = length-append (render fmt args) (texts render ps) in
      rw (← append_assoc log (render fmt args) (texts render ps)) (
        print_all-IsLog (print_into K b fmt args) (log ++ render fmt args) ps
          (print_into-IsLog b log fmt args is (omega (arith, both)))
          (omega (arith, both, length-append log (render fmt args))))

-- `simple_read_from_buffer` as the kernel documents it, at a position that is not negative: it copies
-- what is there from the position on, at most `count` bytes, and moves the position past it.
pub record IsSimpleRead (read : SimpleRead) : Type 0 where
  pub copies :
      (count ppos : ℕ) (bytes : List ℕ) (available : ℕ)
      → available ≤ length bytes
      → read count ppos bytes available ≡ (
        take (min count (available - ppos)) (drop ppos bytes),
        ppos + min count (available - ppos),
      )

take-min : (m c n : ℕ) (xs : List ℕ) → m ≡ min c n → take m xs ≡ take c (take n xs)
take-min zero zero n xs e = refl
take-min zero (suc c) zero xs e = refl
take-min zero (suc c) (suc n) xs e = absurd (omega arith)
take-min (suc m) zero n xs e = absurd (omega arith)
take-min (suc m) (suc c) zero xs e = absurd (omega arith)
take-min (suc m) (suc c) (suc n) [] e = refl
take-min (suc m) (suc c) (suc n) (x ∷ xs) e = ap (◌∷◌ x) (take-min m c n xs (omega arith))

take-nil : (c : ℕ) → take c [] ≡ let nil : List ℕ = [] in nil
take-nil zero = refl
take-nil (suc c) = refl

take-drop :
    (m c n p : ℕ) (xs : List ℕ)
    → m ≡ min c (n - p)
    → take m (drop p xs) ≡ take c (drop p (take n xs))
take-drop m c n zero xs e = take-min m c n xs (omega arith)
take-drop zero c zero (suc p) xs e = sym (take-nil c)
take-drop (suc m) c zero (suc p) xs e = absurd (omega arith)
take-drop m c (suc n) (suc p) [] e = take-nil m ∙ sym (take-nil c)
take-drop m c (suc n) (suc p) (x ∷ xs) e = take-drop m c n p xs (omega arith)

take-empty :
    (log : List ℕ) (c p : ℕ) → length log ≡ 0 → let nil : List ℕ = [] in nil ≡ take c (drop p log)
take-empty [] c zero e = sym (take-nil c)
take-empty [] c (suc p) e = sym (take-nil c)
take-empty (x ∷ log) c p e = absurd (omega arith)

module _ {read : SimpleRead} (S : IsSimpleRead read) where
  pub read_data-IsLog :
      (b : DataBuf) (log : List ℕ) (count ppos : ℕ)
      → IsLog b log
      → ((read_data read b count ppos).0 ≡ take count (drop ppos log))
        × ((read_data read b count ppos).1 ≡ ppos + min count (length log - ppos))
  unfolding read_data
  read_data-IsLog b log count ppos is = elim (Bool-cases (b.bytes_in_buf == 0)) [
    | inl empty ↦
        let none : length log ≡ 0 = ground (arith, is.count) in
        (rw empty (take-empty log count ppos none), rw empty (omega arith))
    | inr full ↦
        let copied =
          S.copies count ppos b.bytes b.bytes_in_buf (omega (arith, is.count, is.block, is.left)) in
        (
          rw (full, copied)
              (take-drop (min count (b.bytes_in_buf - ppos)) count b.bytes_in_buf ppos b.bytes refl
                ∙ rw (is.count, is.text)),
          rw (full, copied, is.count),
        )
  ]

  -- After any calls of `test_printk` whose texts fit the block with one byte to spare, a read of the
  -- debugfs file at any position gives just the bytes of those texts from there on, at most `count`
  -- of them, and moves the position past them.
  pub read_data-print_all :
      {K : Kernel} {render : String → List Arg → List ℕ} (V : IsVsnprintf K render)
      → (p q : ℕ) (ps : List (String × List Arg)) (count ppos : ℕ)
      → length (texts render ps) < data_buf_size
      → ((read_data read (print_all K (fresh_buf p q) ps) count ppos).0
          ≡ take count (drop ppos (texts render ps)))
        × ((read_data read (print_all K (fresh_buf p q) ps) count ppos).1
            ≡ ppos + min count (length (texts render ps) - ppos))
  read_data-print_all {render} V p q ps count ppos fits =
      read_data-IsLog _ (texts render ps) count ppos
        (print_all-IsLog V (fresh_buf p q) [] ps (fresh_buf-IsLog p q) (omega arith))
