-- ===== src/Udbgfs/Stream/Cuts.antt =====
-- Lists cut in places: what `take` and `drop` have in common.
use uprobe_tests.Base.{
  ℕ, zero, suc, ◌+◌, ◌≤◌, ◌≡◌, refl, ap, List, [], ◌∷◌, ◌++◌, arith, length, take, drop,
}

pub take-take : (n m : ℕ) (xs ys : List ℕ) → n ≤ m → take m xs ≡ take m ys → take n xs ≡ take n ys
take-take zero m xs ys le e = refl
take-take (suc n) zero xs ys le e = absurd (omega arith)
take-take (suc n) (suc m) [] [] le e = refl
take-take (suc n) (suc m) [] (y ∷ ys) le e = absurd (cc e)
take-take (suc n) (suc m) (x ∷ xs) [] le e = absurd (cc e)
take-take (suc n) (suc m) (x ∷ xs) (y ∷ ys) le e =
    let head : x ≡ y = cc e in
    let tail : take m xs ≡ take m ys = cc e in
    rw head (ap (◌∷◌ y) (take-take n m xs ys (omega arith) tail))

pub take-append_short : (n : ℕ) (xs ys : List ℕ) → n ≤ length xs → take n (xs ++ ys) ≡ take n xs
take-append_short zero xs ys le = refl
take-append_short (suc n) [] ys le = absurd (omega arith)
take-append_short (suc n) (x ∷ xs) ys le = ap (◌∷◌ x) (take-append_short n xs ys (omega arith))

pub take_append-take-drop :
    (p k : ℕ) (xs : List ℕ) → p + k ≤ length xs → take p xs ++ take k (drop p xs) ≡ take (p + k) xs
take_append-take-drop zero k xs le = ap (λ (n : ℕ). take n xs) (omega arith)
take_append-take-drop (suc p) k [] le = absurd (omega arith)
take_append-take-drop (suc p) k (x ∷ xs) le =
    let next : suc p + k ≡ suc (p + k) = omega arith in
    rw next (ap (◌∷◌ x) (take_append-take-drop p k xs (omega arith)))

pub take_append_drop : (p : ℕ) (xs : List ℕ) → take p xs ++ drop p xs ≡ xs
take_append_drop zero xs = refl
take_append_drop (suc p) [] = refl
take_append_drop (suc p) (x ∷ xs) = ap (◌∷◌ x) (take_append_drop p xs)

pub three_parts :
    (p n : ℕ) (xs : List ℕ) → p ≤ n → take p xs ++ (drop p (take n xs) ++ drop n xs) ≡ xs
three_parts zero n xs le = take_append_drop n xs
three_parts (suc p) zero xs le = absurd (omega arith)
three_parts (suc p) (suc n) [] le = refl
three_parts (suc p) (suc n) (x ∷ xs) le = ap (◌∷◌ x) (three_parts p n xs (omega arith))

pub length-take : (n : ℕ) (xs : List ℕ) → n ≤ length xs → length (take n xs) ≡ n
length-take zero xs le = refl
length-take (suc n) [] le = absurd (omega arith)
length-take (suc n) (x ∷ xs) le = ap suc (length-take n xs (omega arith))

pub take-drop_same :
    (p k n : ℕ) (xs ys : List ℕ)
    → p + k ≤ n
    → take n xs ≡ take n ys
    → take k (drop p xs) ≡ take k (drop p ys)
take-drop_same zero k n xs ys le e = take-take k n xs ys (omega arith) e
take-drop_same (suc p) k zero xs ys le e = absurd (omega arith)
take-drop_same (suc p) k (suc n) [] [] le e = refl
take-drop_same (suc p) k (suc n) [] (y ∷ ys) le e = absurd (cc e)
take-drop_same (suc p) k (suc n) (x ∷ xs) [] le e = absurd (cc e)
take-drop_same (suc p) k (suc n) (x ∷ xs) (y ∷ ys) le e =
    let tail : take n xs ≡ take n ys = cc e in take-drop_same p k n xs ys (omega arith) tail
