-- ===== src/Udbgfs/Whole.antt =====
-- The debugfs file `data` read from its start until a read gives nothing.
use uprobe_tests.Base.{
  ℕ, zero, suc, ◌+◌, ◌-◌, ◌<◌, min, String, ◌≡◌, refl, sym, ap, ◌∙◌, Option, none, some, List, [],
  ◌∷◌, ◌++◌, arith, length, take, drop,
}
use uprobe_tests.Kernel.{Arg, Kernel, DataBuf}
use uprobe_tests.Udbgfs.{data_buf_size, fresh_buf, SimpleRead, read_data}
use uprobe_tests.Udbgfs.Buffer.{
  print_all, texts, read_data-IsLog, print_all-IsLog, IsVsnprintf, IsSimpleRead, IsLog,
  fresh_buf-IsLog,
}

-- One read, and then the others; nothing read is the end of the file.
abbrev pub then_rest : List ℕ → Option (List ℕ) → Option (List ℕ)
then_rest [] rest = some []
then_rest (x ∷ xs) none = none
then_rest (x ∷ xs) (some ys) = some ((x ∷ xs) ++ ys)

-- Reads of `count` bytes each from `ppos` on; `none` if there are more than `reads`.
unfoldable pub read_to_end : SimpleRead → DataBuf → (reads count ppos : ℕ) → Option (List ℕ)
unfolding read_data
read_to_end read b zero count ppos = none
read_to_end read b (suc n) count ppos =
    let got = read_data read b count ppos in then_rest got.0 (read_to_end read b n count got.1)

pub length-drop : (n : ℕ) (xs : List ℕ) → length (drop n xs) ≡ length xs - n
length-drop zero xs = omega arith
length-drop (suc n) [] = omega arith
length-drop (suc n) (x ∷ xs) = omega (arith, length-drop n xs)

drop_nil : (n : ℕ) → drop n [] ≡ let nil : List ℕ = [] in nil
drop_nil zero = refl
drop_nil (suc n) = refl

drop-drop : (k n m : ℕ) (xs : List ℕ) → k ≡ n + m → drop k xs ≡ drop m (drop n xs)
drop-drop k zero m xs e = let k_m : k ≡ m = omega arith in rw k_m refl
drop-drop zero (suc n) m xs e = absurd (omega arith)
drop-drop (suc k) (suc n) m [] e = sym (drop_nil m)
drop-drop (suc k) (suc n) m (x ∷ xs) e = drop-drop k n m xs (omega arith)

pub take-append_drop : (c m : ℕ) (xs : List ℕ) → m ≡ min c (length xs) → take c xs ++ drop m xs ≡ xs
take-append_drop zero zero xs e = refl
take-append_drop zero (suc m) xs e = absurd (omega arith)
take-append_drop (suc c) m [] e = drop_nil m
take-append_drop (suc c) zero (x ∷ xs) e = absurd (omega arith)
take-append_drop (suc c) (suc m) (x ∷ xs) e = ap (◌∷◌ x) (take-append_drop c m xs (omega arith))

-- What a read of the rest `xs` and the reads after it give together.
then_rest_lem :
    (c : ℕ) (xs : List ℕ) (rest : Option (List ℕ))
    → ((0 < length xs) → rest ≡ some (drop (min (suc c) (length xs)) xs))
    → then_rest (take (suc c) xs) rest ≡ some xs
then_rest_lem c [] rest e = refl
then_rest_lem c (x ∷ xs) rest e =
    let there = e (omega arith) in
    rw there (ap some (take-append_drop (suc c) (min (suc c) (suc (length xs))) (x ∷ xs) refl))

module _ {read : SimpleRead} (S : IsSimpleRead read) where
  pub read_to_end-IsLog :
      (b : DataBuf) (log : List ℕ) (reads c ppos : ℕ)
      → IsLog b log
      → length log - ppos < reads
      → read_to_end read b reads (suc c) ppos ≡ some (drop ppos log)
  unfolding read_to_end
  read_to_end-IsLog b log zero c ppos is lt = absurd (omega arith)
  read_to_end-IsLog b log (suc n) c ppos is lt =
      let (got, moved) = read_data-IsLog S b log (suc c) ppos is in
      let left = length-drop ppos log in
      rw (got, moved)
        (then_rest_lem c (drop ppos log) _ (λ more.
          read_to_end-IsLog b log n c (ppos + min (suc c) (length log - ppos)) is
            (omega (arith, more, left))
          ∙ ap some (
              drop-drop (ppos + min (suc c) (length log - ppos)) ppos
                (min (suc c) (length (drop ppos log))) log (omega (arith, left)))))

  -- What the modules print comes back: reads of the debugfs file from its start, of any size but 0, give
  -- together the texts of all calls of `test_printk` in order, and then nothing, where the texts fit the
  -- block with one byte to spare. One read more than there are bytes is enough.
  pub read_to_end-print_all :
      {K : Kernel} {render : String → List Arg → List ℕ} (V : IsVsnprintf K render)
      → (p q : ℕ) (ps : List (String × List Arg)) (reads count : ℕ)
      → length (texts render ps) < data_buf_size
      → length (texts render ps) < reads
      → 0 < count
      → read_to_end read (print_all K (fresh_buf p q) ps) reads count 0 ≡ some (texts render ps)
  read_to_end-print_all V p q ps reads zero fits enough some_bytes = absurd (omega arith)
  read_to_end-print_all {render} V p q ps reads (suc c) fits enough some_bytes =
      read_to_end-IsLog _ (texts render ps) reads c 0
        (print_all-IsLog V (fresh_buf p q) [] ps (fresh_buf-IsLog p q) (omega arith)) (omega arith)
