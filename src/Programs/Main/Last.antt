-- ===== src/Programs/Main/Last.antt =====
-- tdie.c, texec.c and suicide.c, whose last thread is started after the loop.
use uprobe_tests.Base.{
  ℕ, zero, suc, ◌+◌, ◌-◌, ◌<◌, ◌≡◌, ◌∙◌, refl, inl, inr, ◌==◌, ltb, arith, ℤ, Bool-cases,
}
use uprobe_tests.Programs.Main.{
  Pthread, Part, then_part, create_from, join_from, gather, gather_with_last, positive, main,
  main_with_last,
}
use uprobe_tests.Programs.Main.Passed.{given}

create_from_split :
    (P : Pthread) (left i n : ℕ)
    → n ≡ i + left
    → then_part (create_from P left i) (λ _. create_from P 1 n) ≡ create_from P (suc left) i
unfolding create_from
create_from_split P zero i n e = let here : n ≡ i = omega arith in rw here refl
create_from_split P (suc left) i n e = elim (Bool-cases (ltb i 1000)) [
  | inr over ↦ rw over refl
  | inl fits ↦ elim (Bool-cases (P.create i == 0)) [
    | inr bad ↦ rw (fits, bad) refl
    | inl good ↦ rw (fits, good) (create_from_split P left (suc i) n (omega arith))
  ]
]

then_part_assoc :
    {A B C : Type 0} (p : Part A) (q : Part B) (f : B → Part C)
    → then_part p (λ _. then_part q f) ≡ then_part (then_part p (λ _. q)) f
then_part_assoc (Part.ended r) q f = refl
then_part_assoc (Part.goes_on x) q f = refl

gather_with_last-gather :
    (P : Pthread) (n : ℕ) (stale : ℤ) → 0 < n → gather_with_last P n stale ≡ gather P n stale
unfolding gather gather_with_last
gather_with_last-gather P zero stale lt = absurd (omega arith)
gather_with_last-gather P (suc n) stale lt =
    let one_less : suc n - 1 ≡ n = omega arith in
    let split = create_from_split P n 0 n (omega arith) in
    rw one_less (
      then_part_assoc (create_from P n 0) (create_from P 1 n) (λ _. join_from P (suc n) 0 stale)
      ∙ rw split refl)

-- Starting the last thread after the loop changes nothing: the programs that do report as those that
-- start all in the loop.
pub main_with_last-main :
    (P : Pthread) (argc : ℕ) (num_threads niter stale : ℤ)
    → main_with_last P argc num_threads niter stale ≡ main P argc num_threads niter stale
unfolding main main_with_last
main_with_last-main P argc num_threads niter stale =
    elim (Bool-cases (given argc num_threads niter)) [
      | inr bad ↦ ground (arith, bad)
      | inl fine ↦
          let same =
            gather_with_last-gather P (positive num_threads) stale (ground (arith, fine)) in
          rw (fine, same) refl
    ]
