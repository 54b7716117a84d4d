-- ===== src/Examples/Compute/Answers.antt =====
-- What the matrix service of examples/rpc_server.rs answers.
use quic_serve.Prelude.{
  ℕ, zero, suc, ◌<◌, ◌≤◌, ◌≡◌, ◌%◌, ◌^◌, false, refl, ap, Option, none, some, All, Any, length, ltb,
  arith,
}
use quic_serve.Error.{serialization, ok, map_err}
use quic_serve.Message.{Bytes, Codec}
use quic_serve.Config.Quinn.{Outcome, lift}
use quic_serve.Examples.Matrix.{Matrix, cell, Arithmetic}
use quic_serve.Examples.Matrix.Cells.{IsSquare, nth_inside, All-nth}
use quic_serve.Examples.Matrix.Product.{Represents, product, multiply_matrices-product}
use quic_serve.Examples.Compute.{
  MatrixRequest, MatrixResponse, Machine, random_row, random_rows, generate_random_matrix,
  multiplied, call,
}

module _ {F World : Type 0} (gen : World → F × World) where
  length-random_row : (n : ℕ) (w : World) → length (random_row gen n w).0 ≡ n
  unfolding random_row
  length-random_row zero w = refl
  length-random_row (suc n) w = ap suc (length-random_row n (gen w).1)

  length-random_rows : (n size : ℕ) (w : World) → length (random_rows gen n size w).0 ≡ n
  unfolding random_rows
  length-random_rows zero size w = refl
  length-random_rows (suc n) size w = ap suc (length-random_rows n size (random_row gen size w).1)

  random_rows-columns :
      (n size : ℕ) (w : World) → All (λ row. length row ≡ size) (random_rows gen n size w).0
  unfolding random_rows
  random_rows-columns zero size w = tt
  random_rows-columns (suc n) size w =
      (length-random_row size w, random_rows-columns n size (random_row gen size w).1)

  pub generate_random_matrix-IsSquare :
      (n : ℕ) (w : World) → IsSquare n (generate_random_matrix gen n w).0
  unfolding generate_random_matrix
  generate_random_matrix-IsSquare n w = record {
    rows = length-random_rows n n w;
    columns = random_rows-columns n n w;
  }

-- The entries of a matrix; outside it they do not matter.
abbrev or_else : {F : Type 0} → F → Option F → F
or_else x none = x
or_else x (some y) = y

abbrev pub table : {F : Type 0} → F → Matrix F → ℕ → ℕ → F
table outside m i j = or_else outside (cell i j m)

pub table-Represents :
    {F : Type 0} (outside : F) (n : ℕ) (m : Matrix F)
    → IsSquare n m
    → Represents n m (table outside m)
unfolding cell
table-Represents outside n m square = record {
  square = square;
  entries = λ i j hi hj.
      let (row, e) = nth_inside i m (omega (arith, square.rows)) in
      let (x, f) =
        nth_inside j row (omega (arith, All-nth (λ r. length r ≡ n) i row m square.columns e)) in
      rw (e, f) refl;
}

-- Every task of the scope runs, and no other.
pub record IsSchedule {F World : Type 0} (machine : Machine F World) : Type 0 where
  pub inside : (n : ℕ) (w : World) → All (λ i. i < n) (machine.schedule n w).0
  pub covers : (n : ℕ) (w : World) (i : ℕ) → i < n → Any (λ r. r ≡ i) (machine.schedule n w).0

module _ {F World : Type 0} (num : Arithmetic F) (machine : Machine F World)
    (json_request : Codec MatrixRequest) (json_response : Codec (MatrixResponse F)) where
  -- The matrices that a request draws.
  abbrev pub first_drawn : ℕ → World → Matrix F
  first_drawn size w = (generate_random_matrix machine.gen size w).0

  abbrev pub second_drawn : ℕ → World → Matrix F
  second_drawn size w =
      (generate_random_matrix machine.gen size (generate_random_matrix machine.gen size w).1).0

  -- The response has the product of the two matrices that were drawn, and is what serde_json makes of it.
  pub record IsProduct (size : ℕ) (w : World) (answer : Outcome Bytes) : Type 0 where
    pub response : MatrixResponse F
    pub entries : Represents size response.result (
        product num size
          (table num.zero_of (first_drawn size w))
          (table num.zero_of (second_drawn size w)))
    pub encoded : answer ≡ lift (map_err serialization (json_response.to_vec response))

  multiplied-IsProduct :
      (size : ℕ) (w : World)
      → IsSchedule machine
      → IsProduct size w (multiplied num machine json_request json_response size w).0
  multiplied-IsProduct size w scheduled =
      let drawn = generate_random_matrix machine.gen size w in
      let other = generate_random_matrix machine.gen size drawn.1 in
      let square_a = generate_random_matrix-IsSquare machine.gen size w in
      let square_b = generate_random_matrix-IsSquare machine.gen size drawn.1 in
      let (r, made, rep) =
        multiply_matrices-product num drawn.0 other.0 (table num.zero_of drawn.0)
          (table num.zero_of other.0) size (machine.schedule size other.1).0
          (table-Represents num.zero_of size drawn.0 square_a)
          (table-Represents num.zero_of size other.0 square_b) (scheduled.inside size other.1)
          (scheduled.covers size other.1) in
      let ms = machine.elapsed w (machine.schedule size other.1).1 % 2 ^ 64 in
      record {
        response = record { result = r; elapsed_ms = ms };
        entries = rep;
        encoded = rw made refl;
      }

  within : (size : ℕ) → size ≤ 1000 → ltb 1000 size ≡ false
  within size small = ground arith

  -- A request for `matrix_multiply` whose size is at most 1000 is answered with the product of the two
  -- square matrices of that size that were drawn for it: the entry of row `i` and column `j` is the sum
  -- over `k` of the entries `(i, k)` of the first times those `(k, j)` of the second. This is so for every
  -- way in which rayon runs the tasks, if it runs the task of each row and no other; the answer is the
  -- JSON of the response, or serde_json's error.
  pub call-IsProduct :
      (payload : Bytes) (size : ℕ) (w : World)
      → json_request.from_slice payload ≡ ok (record { size = size })
      → size ≤ 1000
      → IsSchedule machine
      → IsProduct size w (call num machine json_request json_response "matrix_multiply" payload w).0
  unfolding call
  call-IsProduct payload size w decodes small scheduled =
      let fits = within size small in rw (decodes, fits) (multiplied-IsProduct size w scheduled)
