-- ===== src/Tests/Machines.antt =====
-- The services of the example server, on a machine that draws 1, 2, 3, … and runs rows from the last.
use quic_serve.Prelude.{
  ℕ, zero, suc, ◌+◌, ◌*◌, ◌-◌, ◌<◌, ◌≤◌, ◌≡◌, refl, List, [], ◌∷◌, All, Any, inl, inr, some, arith,
  str_eq, if◌then◌else◌, Bool-cases, ==→≡, ◌==◌,
}
use quic_serve.Error.{ok, err}
use quic_serve.Message.{Codec}
use quic_serve.Examples.Matrix.{Matrix, Arithmetic, multiply_matrices}
use quic_serve.Examples.Matrix.Cells.{IsSquare}
use quic_serve.Examples.Matrix.Product.{Represents, product, multiply_matrices-product}
use quic_serve.Examples.Compute.{Machine, MatrixRequest, MatrixResponse, call}
use quic_serve.Examples.Compute.Answers.{
  IsSchedule, IsProduct, call-IsProduct, table, table-Represents,
}
use quic_serve.Examples.Echo.{EchoCodecs}

abbrev num : Arithmetic ℕ
num = record { zero_of = 0; add = λ a b. a + b; mul = λ a b. a * b }

abbrev rows_down : ℕ → List ℕ
rows_down zero = []
rows_down (suc n) = n ∷ rows_down n

rows_down-inside : (n m : ℕ) → n ≤ m → All (λ i. i < m) (rows_down n)
rows_down-inside zero m h = tt
rows_down-inside (suc n) m h = (omega arith, rows_down-inside n m (omega arith))

rows_down-covers : (n i : ℕ) → i < n → Any (λ r. r ≡ i) (rows_down n)
rows_down-covers zero i h = absurd (omega arith)
rows_down-covers (suc n) i h = elim (Bool-cases (n == i)) [
  | inl hit ↦ inl (==→≡ n i hit)
  | inr miss ↦ inr (rows_down-covers n i (ground arith))
]

abbrev machine : Machine ℕ ℕ
machine = record {
  gen = λ w. (w, w + 1);
  schedule = λ n w. (rows_down n, w + 1);
  elapsed = λ before after. after - before;
}

machine-IsSchedule : IsSchedule machine
machine-IsSchedule = record {
  inside = λ n w. rows_down-inside n n (omega arith);
  covers = λ n w i h. rows_down-covers n i h;
}

abbrev a : Matrix ℕ
a = (1 ∷ 2 ∷ []) ∷ (3 ∷ 4 ∷ []) ∷ []

abbrev b : Matrix ℕ
b = (5 ∷ 6 ∷ []) ∷ (7 ∷ 8 ∷ []) ∷ []

a-IsSquare : IsSquare 2 a
a-IsSquare = record { rows = refl; columns = (refl, (refl, tt)) }

b-IsSquare : IsSquare 2 b
b-IsSquare = record { rows = refl; columns = (refl, (refl, tt)) }

-- The second row first.
multiply_matrices-product_example :
    (r : Matrix ℕ) × (multiply_matrices num a b (1 ∷ 0 ∷ []) ≡ some r)
    × Represents 2 r (product num 2 (table 0 a) (table 0 b))
multiply_matrices-product_example =
    multiply_matrices-product num a b (table 0 a) (table 0 b) 2 (1 ∷ 0 ∷ [])
      (table-Represents 0 2 a a-IsSquare) (table-Represents 0 2 b b-IsSquare)
      (rows_down-inside 2 2 (omega arith)) (rows_down-covers 2)

abbrev json_request : Codec MatrixRequest
json_request = record {
  to_vec = λ r. ok (r.size ∷ []);
  from_slice = λ bytes. ok (record { size = 3 });
  encode = λ r buf. ok buf;
  decode = λ bytes. err "";
}

abbrev json_response : Codec (MatrixResponse ℕ)
json_response = record {
  to_vec = λ r. ok (r.elapsed_ms ∷ []);
  from_slice = λ bytes. err "";
  encode = λ r buf. ok buf;
  decode = λ bytes. err "";
}

call-IsProduct_example :
    IsProduct num machine json_request json_response 3 1
      (call num machine json_request json_response "matrix_multiply" (3 ∷ []) 1).0
call-IsProduct_example =
    call-IsProduct num machine json_request json_response (3 ∷ []) 3 1 refl (omega arith)
      machine-IsSchedule

abbrev pub silent : {T : Type 0} → T → Codec T
silent t = record {
  to_vec = λ r. err "";
  from_slice = λ bytes. err "";
  encode = λ r buf. ok buf;
  decode = λ bytes. ok t;
}

abbrev pub echo_codecs : EchoCodecs
echo_codecs = record {
  echo_request = silent (record { message = "hi" });
  echo_response = record (silent (record { message = "" })) {
    encode = λ r buf. if str_eq r.message "Echo: hi" then ok (1 ∷ buf) else err "";
  };
  stream_request = silent (record { count = 1; interval_ms = 1 });
  stream_response = silent (record { sequence = 1; payload = ""; timestamp = 0 });
}
