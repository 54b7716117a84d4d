-- ===== src/Examples/Matrix.antt =====
-- `multiply_matrices` of examples/rpc_server.rs. The arithmetic of `f64` is a parameter; `none` is the
-- panic of an index out of bounds.
pub mod Cells
pub mod Product
use quic_serve.Prelude.{ℕ, zero, suc, ◌+◌, Option, none, some, List, [], ◌∷◌, length}

infixl 5 ◌>>=◌
abbrev pub ◌>>=◌ : {A B : Type 0} → Option A → (A → Option B) → Option B
none >>= f = none
some a >>= f = f a

module _ {A : Type 0} where
  -- `v[n]`
  abbrev pub nth : ℕ → List A → Option A
  nth n [] = none
  nth zero (a ∷ l) = some a
  nth (suc n) (a ∷ l) = nth n l

  abbrev pub behind : A → Option (List A) → Option (List A)
  behind a none = none
  behind a (some l) = some (a ∷ l)

  -- `v[n] = a`
  abbrev pub put : ℕ → A → List A → Option (List A)
  put n a [] = none
  put zero a (_ ∷ l) = some (a ∷ l)
  put (suc n) a (b ∷ l) = behind b (put n a l)

  -- `vec![a; n]`
  abbrev pub replicate : ℕ → A → List A
  replicate zero a = []
  replicate (suc n) a = a ∷ replicate n a

-- `Vec<Vec<f64>>`, row by row.
abbrev pub Matrix : Type 0 → Type 0
Matrix F = List (List F)

module _ {F : Type 0} where
  -- `m[i][j]`
  unfoldable pub cell : ℕ → ℕ → Matrix F → Option F
  cell i j m = do row ← nth i m; nth j row

  -- `m[i][j] = x`
  unfoldable pub put_cell : ℕ → ℕ → F → Matrix F → Option (Matrix F)
  put_cell i j x m = do row ← nth i m; row' ← put j x row; put i row' m

-- `0.0`, `+` and `*` of `f64`.
pub record Arithmetic (F : Type 0) : Type 0 where
  pub zero_of : F
  pub add : F → F → F
  pub mul : F → F → F

module _ {F : Type 0} (num : Arithmetic F) (a b : Matrix F) where
  -- `for k in 0..size { sum += a[i][k] * b[k][j]; }`, with so many rounds left, the next at `k`.
  unfoldable pub sum_loop : ℕ → ℕ → ℕ → ℕ → F → Option F
  unfolding cell
  sum_loop i j zero k sum = some sum
  sum_loop i j (suc left) k sum = do
    x ← cell i k a
    y ← cell k j b
    sum_loop i j left (suc k) (num.add sum (num.mul x y))

  -- `for j in 0..size { …; result[i][j] = sum; }`
  unfoldable pub row_loop : ℕ → ℕ → ℕ → Matrix F → Option (Matrix F)
  unfolding sum_loop put_cell
  row_loop i zero j result = some result
  row_loop i (suc left) j result = do
    sum ← sum_loop i j (length a) 0 num.zero_of
    result' ← put_cell i j sum result
    row_loop i left (suc j) result'

  -- The tasks that are spawned, one for each row, in the order in which rayon runs them. Each writes its
  -- own row only, so tasks that run at once do what they do one after the other.
  unfoldable pub run_tasks : List ℕ → Matrix F → Option (Matrix F)
  unfolding row_loop
  run_tasks [] result = some result
  run_tasks (i ∷ order) result = do
    result' ← row_loop i (length a) 0 result
    run_tasks order result'

  unfoldable pub multiply_matrices : List ℕ → Option (Matrix F)
  unfolding run_tasks
  multiply_matrices order =
      run_tasks order (replicate (length a) (replicate (length a) num.zero_of))
