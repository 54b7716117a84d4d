-- ===== src/Examples/Matrix/Cells.antt =====
-- Reading and writing single cells.
use quic_serve.Prelude.{
  ℕ, zero, suc, ◌<◌, ◌≡◌, refl, subst, ap, ◌∙◌, Option, none, some, List, [], ◌∷◌, All, length,
  ◌==◌, ◌&&◌, Bool-cases, inl, inr, ==→≡, if◌then◌else◌, arith,
}
use quic_serve.Examples.Matrix.{nth, put, replicate, behind, Matrix, cell, put_cell}

module _ {A : Type 0} where
  pub nth_inside : (n : ℕ) (l : List A) → n < length l → (a : A) × (nth n l ≡ some a)
  nth_inside n [] h = absurd (omega arith)
  nth_inside zero (a ∷ l) h = (a, refl)
  nth_inside (suc n) (a ∷ l) h = nth_inside n l (omega arith)

  pub put_inside :
      (n : ℕ) (a : A) (l : List A) → n < length l → (l' : List A) × (put n a l ≡ some l')
  put_inside n a [] h = absurd (omega arith)
  put_inside zero a (b ∷ l) h = (a ∷ l, refl)
  put_inside (suc n) a (b ∷ l) h =
      let (l', e) = put_inside n a l (omega arith) in (b ∷ l', rw e refl)

  -- Inversion of a write behind the first item.
  behind-eq-some :
      (b : A) (o : Option (List A)) (l : List A)
      → behind b o ≡ some l
      → (l' : List A) × (o ≡ some l') × (l ≡ b ∷ l')
  behind-eq-some b none l e = cc
  behind-eq-some b (some l') l e = (l', refl, cc)

  pub nth-put :
      (n m : ℕ) (a : A) (l l' : List A)
      → put n a l ≡ some l'
      → nth m l' ≡ (if n == m then some a else nth m l)
  nth-put n m a [] l' e = cc
  nth-put zero zero a (b ∷ l) l' e = let same : l' ≡ a ∷ l = cc in rw same refl
  nth-put zero (suc m) a (b ∷ l) l' e = let same : l' ≡ a ∷ l = cc in rw same (ground arith)
  nth-put (suc n) zero a (b ∷ l) l' e =
      let (k, p, same) = behind-eq-some b (put n a l) l' e in rw same (ground arith)
  nth-put (suc n) (suc m) a (b ∷ l) l' e =
      let (k, p, same) = behind-eq-some b (put n a l) l' e in
      rw same (ground (arith, nth-put n m a l k p))

  pub length-put : (n : ℕ) (a : A) (l l' : List A) → put n a l ≡ some l' → length l' ≡ length l
  length-put n a [] l' e = cc
  length-put zero a (b ∷ l) l' e = let same : l' ≡ a ∷ l = cc in rw same refl
  length-put (suc n) a (b ∷ l) l' e =
      let (k, p, same) = behind-eq-some b (put n a l) l' e in
      rw same (ap suc (length-put n a l k p))

  pub All-put :
      (P : A → Type 0) (n : ℕ) (a : A) (l l' : List A)
      → put n a l ≡ some l'
      → P a
      → All P l
      → All P l'
  All-put P n a [] l' e p h = cc
  All-put P zero a (b ∷ l) l' e p (q, h) = let same : l' ≡ a ∷ l = cc in rw same (p, h)
  All-put P (suc n) a (b ∷ l) l' e p (q, h) =
      let (k, r, same) = behind-eq-some b (put n a l) l' e in rw same (q, All-put P n a l k r p h)

  pub All-nth : (P : A → Type 0) (n : ℕ) (a : A) (l : List A) → All P l → nth n l ≡ some a → P a
  All-nth P n a [] h e = cc
  All-nth P zero a (b ∷ l) (p, h) e = let same : b ≡ a = cc in subst P same p
  All-nth P (suc n) a (b ∷ l) (p, h) e = All-nth P n a l h e

  pub length-replicate : (n : ℕ) (a : A) → length (replicate n a) ≡ n
  length-replicate zero a = refl
  length-replicate (suc n) a = ap suc (length-replicate n a)

  pub All-replicate : (P : A → Type 0) (n : ℕ) (a : A) → P a → All P (replicate n a)
  All-replicate P zero a p = tt
  All-replicate P (suc n) a p = (p, All-replicate P n a p)

module _ {F : Type 0} where
  -- So many rows, and so many columns.
  pub record IsSquare (n : ℕ) (m : Matrix F) : Type 0 where
    pub rows : length m ≡ n
    pub columns : All (λ row. length row ≡ n) m

  cells_after :
      (i j : ℕ) (x : F) (m : Matrix F) (row row' : List F) (m' : Matrix F)
      → nth i m ≡ some row
      → put j x row ≡ some row'
      → put i row' m ≡ some m'
      → (p q : ℕ) → cell p q m' ≡ (if (i == p) && (j == q) then some x else cell p q m)
  unfolding cell
  cells_after i j x m row row' m' e f g p q = elim (Bool-cases (i == p)) [
    | inl hit ↦
        let e' : nth p m ≡ some row = subst (λ t. nth t m ≡ some row) (==→≡ i p hit) e in
        rw (nth-put i p row' m m' g, hit, e') (nth-put j q x row row' f)
    | inr miss ↦ rw (nth-put i p row' m m' g, miss) refl
  ]

  -- In a square matrix a cell within the bounds can be written: that cell is then what was written, the
  -- others are as they were, and the matrix is still square.
  pub put_cell_inside :
      (n i j : ℕ) (x : F) (m : Matrix F)
      → IsSquare n m
      → i < n
      → j < n
      → (m' : Matrix F) × (put_cell i j x m ≡ some m')
        × IsSquare n m'
        × ((p q : ℕ) → cell p q m' ≡ (if (i == p) && (j == q) then some x else cell p q m))
  unfolding put_cell cell
  put_cell_inside n i j x m square hi hj =
      let (row, e) = nth_inside i m (omega (arith, square.rows)) in
      let wide : length row ≡ n = All-nth (λ r. length r ≡ n) i row m square.columns e in
      let (row', f) = put_inside j x row (omega (arith, wide)) in
      let (m', g) = put_inside i row' m (omega (arith, square.rows)) in
      (
        m',
        rw (e, f) g,
        record {
          rows = length-put i row' m m' g ∙ square.rows;
          columns =
              All-put (λ r. length r ≡ n) i row' m m' g (length-put j x row row' f ∙ wide)
                square.columns;
        },
        cells_after i j x m row row' m' e f g,
      )
