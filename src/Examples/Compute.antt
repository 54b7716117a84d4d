-- ===== src/Examples/Compute.antt =====
-- `ComputeService` and `generate_random_matrix` of examples/rpc_server.rs.
pub mod Answers
use quic_serve.Prelude.{
  ℕ, zero, suc, ◌%◌, ◌^◌, String, Option, none, some, List, [], ◌∷◌, str_eq, ltb, if◌then◌else◌,
}
use quic_serve.Error.{
  Error, method_not_found, invalid_config, deserialization, serialization, Result, ok, err, map_err,
}
use quic_serve.Message.{Bytes, Codec}
use quic_serve.Config.Quinn.{Outcome, done, failed, panicked, ◌>>=◌, lift}
use quic_serve.Examples.Matrix.{Matrix, Arithmetic, multiply_matrices}

pub record MatrixRequest : Type 0 where
  pub size : ℕ

pub record MatrixResponse (F : Type 0) : Type 0 where
  pub result : Matrix F
  pub elapsed_ms : ℕ

module _ {F World : Type 0} (gen : World → F × World) where
  -- `(0..size).map(|_| rng.gen()).collect()`
  unfoldable pub random_row : ℕ → World → List F × World
  random_row zero w = ([], w)
  random_row (suc n) w = let (x, w1) = gen w in let (row, w2) = random_row n w1 in (x ∷ row, w2)

  -- So many rows of `size` entries.
  unfoldable pub random_rows : ℕ → ℕ → World → Matrix F × World
  unfolding random_row
  random_rows zero size w = ([], w)
  random_rows (suc n) size w =
      let (row, w1) = random_row size w in
      let (rows, w2) = random_rows n size w1 in (row ∷ rows, w2)

  unfoldable pub generate_random_matrix : ℕ → World → Matrix F × World
  unfolding random_rows
  generate_random_matrix size w = random_rows size size w

-- What the service uses of the machine: `rng.gen()`, the order in which rayon runs so many tasks, and
-- the milliseconds that pass while a state becomes another.
pub record Machine (F World : Type 0) : Type 0 where
  pub gen : World → F × World
  pub schedule : ℕ → World → List ℕ × World
  pub elapsed : World → World → ℕ

abbrev pub or_panic : {A : Type 0} → Option A → Outcome A
or_panic none = panicked
or_panic (some a) = done a

-- `json_request` and `json_response` are serde_json's code for the two messages.
module _ {F World : Type 0} (num : Arithmetic F) (machine : Machine F World)
    (json_request : Codec MatrixRequest) (json_response : Codec (MatrixResponse F)) where
  abbrev pub multiplied : ℕ → World → Outcome Bytes × World
  multiplied size start =
      let (a, w1) = generate_random_matrix machine.gen size start in
      let (b, w2) = generate_random_matrix machine.gen size w1 in
      let (order, end) = machine.schedule size w2 in
      (
        or_panic (multiply_matrices num a b order) >>= λ result. lift (
            map_err serialization (
              json_response.to_vec
                (record { result = result; elapsed_ms = machine.elapsed start end % 2 ^ 64 }))),
        end,
      )

  abbrev pub sized : Result Error MatrixRequest → World → Outcome Bytes × World
  sized (err e) w = (failed e, w)
  sized (ok request) w =
      if ltb 1000 request.size
      then (failed (invalid_config "Matrix size too large"), w)
      else multiplied request.size w

  unfoldable pub call : String → Bytes → World → Outcome Bytes × World
  unfolding generate_random_matrix multiply_matrices
  call method payload w =
      if str_eq method "matrix_multiply"
      then sized (map_err deserialization (json_request.from_slice payload)) w
      else (failed (method_not_found method), w)

unfoldable pub methods : List String
methods = "matrix_multiply" ∷ []
