-- ===== src/Prelude/Maps.antt =====
-- `HashMap` as an association list: `get`, `insert`, `remove`, and the keys. A map is met only through
-- these, so the order of its entries is that of insertion and carries no meaning.
use mathlib.Core.Path.{◌≡◌, refl, ◌∙◌}
use mathlib.Core.Logic.{◌↔◌}
use mathlib.Core.Bool.{Bool, true}
use mathlib.Core.Option.{Option, none, some}
use mathlib.Core.List.{List, [], ◌∷◌}
use native.Mathlib.Omega.{arith}
use Prim.Native.Nat.{ℕ}
use Prim.Native.String.{String}
use text.Mathlib.Text.{◌==◌ as str_eq}
use text.Mathlib.TextEquality.{eq_iff}
use quic_serve.Prelude.Tests.{◌==◌, ==→≡, ≡→==, if◌then◌else◌}

-- Equality of keys, decided by a test.
pub record Eq (K : Type 0) : Type 0 where
  pub beq : K → K → Bool
  pub beq_iff : (a b : K) → (beq a b ≡ true) ↔ (a ≡ b)

pub nat_beq_iff : (a b : ℕ) → ((a == b) ≡ true) ↔ (a ≡ b)
nat_beq_iff a b = (==→≡ a b, ≡→== a b)

instance abbrev pub nat_eq : Eq ℕ
nat_eq = record { beq = λ a b. a == b; beq_iff = nat_beq_iff }

instance abbrev pub string_eq : Eq String
string_eq = record { beq = str_eq; beq_iff = eq_iff }

abbrev pub Assoc : Type 0 → Type 0 → Type 0
Assoc K V = List (K × V)

pub beq_refl : {K : Type 0} ⦃e : Eq K⦄ (k : K) → e.beq k k ≡ true
beq_refl ⦃e⦄ k = (e.beq_iff k k).1 refl

module _ {K V : Type 0} ⦃e : Eq K⦄ where
  unfoldable pub get : K → Assoc K V → Option V
  get k [] = none
  get k ((j, v) ∷ m) = if e.beq j k then some v else get k m

  unfoldable pub remove : K → Assoc K V → Assoc K V
  remove k [] = []
  remove k ((j, v) ∷ m) = let rest = remove k m in if e.beq j k then rest else (j, v) ∷ rest

  unfoldable pub insert : K → V → Assoc K V → Assoc K V
  unfolding remove
  insert k v m = (k, v) ∷ remove k m

  unfoldable pub keys : Assoc K V → List K
  keys [] = []
  keys ((k, _) ∷ m) = k ∷ keys m

  pub get-remove :
      (k j : K) (m : Assoc K V) → get j (remove k m) ≡ (if e.beq k j then none else get j m)
  unfolding get remove
  get-remove k j [] = ground arith
  get-remove k j ((i, v) ∷ m) =
      ground (arith, get-remove k j m, e.beq_iff i k, e.beq_iff i j, e.beq_iff k j)

  pub get-insert :
      (k j : K) (v : V) (m : Assoc K V)
      → get j (insert k v m) ≡ (if e.beq k j then some v else get j m)
  unfolding get insert
  get-insert k j v m = ground (arith, get-remove k j m)

module _ {K V : Type 0} ⦃e : Eq K⦄ where
  -- No key stands twice.
  abbrev pub UniqueKeys : Assoc K V → Type 0
  UniqueKeys [] = Unit
  UniqueKeys ((k, _) ∷ m) = (get k m ≡ none) × UniqueKeys m

  pub remove-UniqueKeys : (k : K) (m : Assoc K V) → UniqueKeys m → UniqueKeys (remove k m)
  unfolding remove
  remove-UniqueKeys k [] h = tt
  remove-UniqueKeys k ((j, v) ∷ m) (free, h) =
      ground (arith, remove-UniqueKeys k m h, get-remove k j m)

  pub insert-UniqueKeys : (k : K) (v : V) (m : Assoc K V) → UniqueKeys m → UniqueKeys (insert k v m)
  unfolding insert
  insert-UniqueKeys k v m h = (get-remove k k m ∙ rw (beq_refl k) refl, remove-UniqueKeys k m h)

  pub remove_absent : (k : K) (m : Assoc K V) → get k m ≡ none → remove k m ≡ m
  unfolding get remove
  remove_absent k [] h = refl
  remove_absent k ((j, v) ∷ m) h = ground (arith, remove_absent k m)
