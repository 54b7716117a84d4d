-- ===== src/Bindings/Node/Results.antt =====
-- What a result is, if it is one: for the functions of src/bindings/node.rs that end with `?`s.
use quic_serve.Prelude.{◌≡◌, refl}
use quic_serve.Error.{Result, ok, err, ◌>>=◌}

-- The two steps of a computation that went through.
pub record Steps {E S T : Type 0} (first : Result E S) (rest : S → Result E T) (end : T)
    : Type 0 where
  pub between : S
  pub first_ok : first ≡ ok between
  pub rest_ok : rest between ≡ ok end

pub steps :
    {E S T : Type 0} (first : Result E S) (rest : S → Result E T) (end : T)
    → (first >>= rest) ≡ ok end
    → Steps first rest end
steps (err _) rest end went = cc
steps (ok s) rest end went = record { between = s; first_ok = refl; rest_ok = went }

-- If there is a value, it is as `P` says.
pub record OkIs {E S : Type 0} (P : S → Type 0) (m : Result E S) : Type 0 where
  pub is_ok : (s : S) → m ≡ ok s → P s

pub bind-OkIs :
    {E S T : Type 0} (P : T → Type 0) (first : Result E S) (rest : S → Result E T)
    → ((s : S) → OkIs P (rest s))
    → OkIs P (first >>= rest)
bind-OkIs P first rest all = record {
  is_ok = λ t went. let by = steps first rest t went in (all by.between).is_ok t by.rest_ok;
}
