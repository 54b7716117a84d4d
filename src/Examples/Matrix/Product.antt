-- ===== src/Examples/Matrix/Product.antt =====
-- What `multiply_matrices` of examples/rpc_server.rs computes.
use quic_serve.Prelude.{
  ℕ, zero, suc, ◌+◌, ◌<◌, ◌≤◌, ◌≡◌, ◌≢◌, refl, ap, subst, ◌∙◌, some, List, [], ◌∷◌, All, Any,
  length, ◌==◌, false, ◌&&◌, Bool-cases, inl, inr, ◌⊎◌, ==→≡, ≡→==, if◌then◌else◌, arith,
}
use quic_serve.Examples.Matrix.{
  replicate, Matrix, cell, Arithmetic, sum_loop, row_loop, run_tasks, multiply_matrices,
}
use quic_serve.Examples.Matrix.Cells.{length-replicate, All-replicate, IsSquare, put_cell_inside}

-- The matrix is square, of size `n`, and its entries are those of the table.
pub record Represents {F : Type 0} (n : ℕ) (m : Matrix F) (table : ℕ → ℕ → F) : Type 0 where
  pub square : IsSquare n m
  pub entries : (i j : ℕ) → i < n → j < n → cell i j m ≡ some (table i j)

module _ {F : Type 0} (num : Arithmetic F) where
  -- `term 0 + … + term (n - 1)`
  abbrev pub sum_to : ℕ → (ℕ → F) → F
  sum_to zero term = num.zero_of
  sum_to (suc n) term = num.add (sum_to n term) (term n)

  -- The product of two tables, which is the mathematical one.
  abbrev pub product : ℕ → (ℕ → ℕ → F) → (ℕ → ℕ → F) → ℕ → ℕ → F
  product n f g i j = sum_to n (λ k. num.mul (f i k) (g k j))

  module _ (a b : Matrix F) (f g : ℕ → ℕ → F) (n : ℕ) (rep_a : Represents n a f)
      (rep_b : Represents n b g) where
    ends : (k : ℕ) → 0 + k ≡ n → k ≡ n
    ends k e = omega arith

    sum_loop_lem :
        (i j left k : ℕ)
        → i < n
        → j < n
        → left + k ≡ n
        → sum_loop num a b i j left k (sum_to k (λ t. num.mul (f i t) (g t j)))
          ≡ some (product n f g i j)
    unfolding sum_loop
    sum_loop_lem i j zero k hi hj e = ap (λ t. some (product t f g i j)) (ends k e)
    sum_loop_lem i j (suc left) k hi hj e =
        rw (rep_a.entries i k hi (omega arith), rep_b.entries k j (omega arith) hj)
          (sum_loop_lem i j left (suc k) hi hj (omega arith))

    -- What the task of row `i` has done once it has passed the columns from `j` on.
    record RowDone (i j : ℕ) (before after : Matrix F) : Type 0 where
      square : IsSquare n after
      done : (q : ℕ) → j ≤ q → q < n → cell i q after ≡ some (product n f g i q)
      kept : (p q : ℕ) → (i ≢ p) ⊎ (q < j) → cell p q after ≡ cell p q before

    later : (j q : ℕ) → j ≤ q → (j == q) ≡ false → suc j ≤ q
    later j q le miss = ground arith

    differ : (i p : ℕ) → i ≡ p → (i == p) ≡ false → ⊥
    differ i p e miss = cc (≡→== i p e)

    others : (i j p q : ℕ) → (i ≢ p) ⊎ (q < j) → ((i == p) && (j == q)) ≡ false
    others i j p q h = ground arith

    row_of_cells :
        (i j : ℕ) (m m1 m2 : Matrix F)
        → i < n
        → j < n
        → ((p q : ℕ)
            → cell p q m1 ≡ (if (i == p) && (j == q) then some (product n f g i j) else cell p q m))
        → RowDone i (suc j) m1 m2
        → RowDone i j m m2
    row_of_cells i j m m1 m2 hi hj cells row = record {
      square = row.square;
      done = λ q le lt. elim (Bool-cases (j == q)) [
        | inl hit ↦
            subst (λ t. cell i t m2 ≡ some (product n f g i t)) (==→≡ j q hit)
              (row.kept i j (inr (omega arith))
                ∙ cells i j
                ∙ rw (≡→== i i refl, ≡→== j j refl) refl)
        | inr miss ↦ row.done q (later j q le miss) lt
      ];
      kept = λ p q h. row.kept p q (before p q h) ∙ cells p q ∙ rw (others i j p q h) refl;
    }
      where
        before : (p q : ℕ) → (i ≢ p) ⊎ (q < j) → (i ≢ p) ⊎ (q < suc j)
        before p q (inl h) = inl h
        before p q (inr h) = inr (omega arith)

    row_loop_lem :
        (i left j : ℕ) (m : Matrix F)
        → i < n
        → left + j ≡ n
        → IsSquare n m
        → (m' : Matrix F) × (row_loop num a b i left j m ≡ some m') × RowDone i j m m'
    unfolding row_loop
    row_loop_lem i zero j m hi e square = (
      m,
      refl,
      record { square = square; done = λ q h k. absurd (omega arith); kept = λ p q h. refl },
    )
    row_loop_lem i (suc left) j m hi e square =
        let summed = sum_loop_lem i j n 0 hi (omega arith) (omega arith) in
        let (m1, put, square1, cells) =
          put_cell_inside n i j (product n f g i j) m square hi (omega arith) in
        let (m2, rest, row) = row_loop_lem i left (suc j) m1 hi (omega arith) square1 in
        (
          m2,
          rw (rep_a.square.rows, summed, put) rest,
          row_of_cells i j m m1 m2 hi (omega arith) cells row,
        )

    stood :
        (p q : ℕ) (m : Matrix F)
        → ⊥ ⊎ (cell p q m ≡ some (product n f g p q))
        → cell p q m ≡ some (product n f g p q)
    stood p q m (inl absent) = elim absent [ ]
    stood p q m (inr h) = h

    filled_by :
        (i : ℕ) (order : List ℕ) (p q : ℕ) (m m1 : Matrix F)
        → q < n
        → RowDone i 0 m m1
        → Any (λ r. r ≡ p) (i ∷ order) ⊎ (cell p q m ≡ some (product n f g p q))
        → Any (λ r. r ≡ p) order ⊎ (cell p q m1 ≡ some (product n f g p q))
    filled_by i order p q m m1 lt row (inl (inl e)) =
        inr (subst (λ t. cell t q m1 ≡ some (product n f g t q)) e (row.done q (omega arith) lt))
    filled_by i order p q m m1 lt row (inl (inr h)) = inl h
    filled_by i order p q m m1 lt row (inr h) = elim (Bool-cases (i == p)) [
      | inl hit ↦ inr (
          subst (λ t. cell t q m1 ≡ some (product n f g t q)) (==→≡ i p hit)
            (row.done q (omega arith) lt))
      | inr miss ↦ inr (row.kept p q (inl (λ e. differ i p e miss)) ∙ h)
    ]

    -- What the tasks have done: the rows of the order are filled, and those of no task are as before.
    run_tasks_lem :
        (order : List ℕ) (m : Matrix F)
        → All (λ i. i < n) order
        → IsSquare n m
        → (m' : Matrix F) × (run_tasks num a b order m ≡ some m')
          × IsSquare n m'
          × ((p q : ℕ)
              → q < n
              → Any (λ i. i ≡ p) order ⊎ (cell p q m ≡ some (product n f g p q))
              → cell p q m' ≡ some (product n f g p q))
    unfolding run_tasks
    run_tasks_lem [] m inside square = (m, refl, square, λ p q lt h. stood p q m h)
    run_tasks_lem (i ∷ order) m (hi, inside) square =
        let (m1, ran, row) = row_loop_lem i n 0 m hi (omega arith) square in
        let (m2, rest, square2, filled) = run_tasks_lem order m1 inside row.square in
        (
          m2,
          rw (rep_a.square.rows, ran) rest,
          square2,
          λ p q lt h. filled p q lt (filled_by i order p q m m1 lt row h),
        )

  -- The product of two square matrices of one size returns, whatever the entries are, and is their
  -- mathematical product: the entry of row `i` and column `j` is the sum over `k` of the entries `(i, k)`
  -- of the first times those `(k, j)` of the second, added up from 0 in the order of `k`. It holds for
  -- every order in which the tasks run, if each row below the size is among them and nothing else is; so
  -- the result does not depend on how rayon schedules them.
  pub multiply_matrices-product :
      (a b : Matrix F) (f g : ℕ → ℕ → F) (n : ℕ) (order : List ℕ)
      → Represents n a f
      → Represents n b g
      → All (λ i. i < n) order
      → ((i : ℕ) → i < n → Any (λ r. r ≡ i) order)
      → (r : Matrix F) × (multiply_matrices num a b order ≡ some r) × Represents n r (product n f g)
  unfolding multiply_matrices
  multiply_matrices-product a b f g n order rep_a rep_b inside covers =
      let (r, ran, square, filled) =
        run_tasks_lem a b f g n rep_a rep_b order (replicate n (replicate n num.zero_of)) inside
          record {
            rows = length-replicate n (replicate n num.zero_of);
            columns =
                All-replicate (λ row. length row ≡ n) n (replicate n num.zero_of)
                  (length-replicate n num.zero_of);
          } in
      (
        r,
        rw rep_a.square.rows ran,
        record { square = square; entries = λ i j hi hj. filled i j hj (inl (covers i hi)) },
      )
