-- ===== src/Examples/Script/Awaits.antt =====
-- The ten tasks of examples/rpc_client.rs as they are spawned, and their awaits.
use quic_serve.Prelude.{
  ℕ, zero, suc, ◌+◌, ◌<◌, ◌≤◌, ◌≡◌, refl, Option, none, some, List, [], ◌∷◌, inl, inr, Assoc, ◌<>◌,
  decimal, get, nat_eq, ◌==◌, Bool-cases, arith, ap, length,
}
use quic_serve.Error.{Error, Result, ok, err}
use quic_serve.Examples.Echo.{EchoResponse}
use quic_serve.Examples.Matrix.{nth}
use quic_serve.Examples.Script.{spawn, await_all, awaited}
use quic_serve.Examples.Script.Schedule.{Has}

pub get-spawn : (left i j : ℕ) → i ≤ j → j < i + left → Has (get j (spawn left i))
unfolding spawn get
get-spawn zero i j low high = absurd (omega arith)
get-spawn (suc left) i j low high = elim (Bool-cases (i == j)) [
  | inl hit ↦ (record { message = "Parallel request " <> decimal i }, rw hit refl)
  | inr miss ↦ rw miss (get-spawn left (suc i) j (ground arith) (omega arith))
]

awaited-some :
    (o : Option (Result Error EchoResponse)) (rest : Option (Result Error (List EchoResponse)))
    → Has o
    → Has rest
    → Has (awaited o rest)
awaited-some none rest (r, found) h = cc
awaited-some (some (err e)) rest found h = (err e, refl)
awaited-some (some (ok r)) none found (rs, h) = cc
awaited-some (some (ok r)) (some (err e)) found h = (err e, refl)
awaited-some (some (ok r)) (some (ok rs)) found h = (ok (r ∷ rs), refl)

-- All tasks are awaited to the end if all of them return.
pub await_all-some :
    (left i : ℕ) (returned : Assoc ℕ (Result Error EchoResponse))
    → ((j : ℕ) → i ≤ j → j < i + left → Has (get j returned))
    → Has (await_all left i returned)
unfolding await_all
await_all-some zero i returned h = (ok [], refl)
await_all-some (suc left) i returned h =
    awaited-some (get i returned) (await_all left (suc i) returned)
      (h i (omega arith) (omega arith))
      (await_all-some left (suc i) returned (λ j low high. h j (omega arith) (omega arith)))

awaited-eq-ok :
    (o : Option (Result Error EchoResponse)) (rest : Option (Result Error (List EchoResponse)))
    (rs : List EchoResponse)
    → awaited o rest ≡ some (ok rs)
    → (r : EchoResponse) × (more : List EchoResponse) × (o ≡ some (ok r))
      × (rest ≡ some (ok more))
      × (rs ≡ r ∷ more)
awaited-eq-ok none rest rs e = cc
awaited-eq-ok (some (err x)) rest rs e = cc
awaited-eq-ok (some (ok r)) none rs e = cc
awaited-eq-ok (some (ok r)) (some (err x)) rs e = cc
awaited-eq-ok (some (ok r)) (some (ok more)) rs e = (r, more, refl, refl, cc)

-- The responses are what the tasks with these numbers have returned, in their order.
abbrev pub AreReturned : ℕ → ℕ → Assoc ℕ (Result Error EchoResponse) → List EchoResponse → Type 0
AreReturned left i returned rs =
    (length rs ≡ left)
    × ((j : ℕ)
        → j < left
        → (r : EchoResponse) × (nth j rs ≡ some r) × (get (i + j) returned ≡ some (ok r)))

cons-returned :
    (left i : ℕ) (returned : Assoc ℕ (Result Error EchoResponse)) (r : EchoResponse)
    (more : List EchoResponse)
    → get i returned ≡ some (ok r)
    → ((j : ℕ)
        → j < left
        → (q : EchoResponse) × (nth j more ≡ some q) × (get (suc i + j) returned ≡ some (ok q)))
    → (j : ℕ) → j < suc left
    → (q : EchoResponse) × (nth j (r ∷ more) ≡ some q) × (get (i + j) returned ≡ some (ok q))
cons-returned left i returned r more own each zero low =
    let same : i + 0 ≡ i = omega arith in (r, refl, rw same own)
cons-returned left i returned r more own each (suc j) low =
    let (q, there, found) = each j (omega arith) in
    let same : i + suc j ≡ suc i + j = omega arith in (q, there, rw same found)

pub await_all-AreReturned :
    (left i : ℕ) (returned : Assoc ℕ (Result Error EchoResponse)) (rs : List EchoResponse)
    → await_all left i returned ≡ some (ok rs)
    → AreReturned left i returned rs
unfolding await_all
await_all-AreReturned zero i returned rs e =
    let same : rs ≡ [] = cc in rw same (refl, λ j low. absurd (omega arith))
await_all-AreReturned (suc left) i returned rs e =
    let (r, more, own, e', same) =
      awaited-eq-ok (get i returned) (await_all left (suc i) returned) rs e in
    let (many, each) = await_all-AreReturned left (suc i) returned more e' in
    rw same (ap suc many, cons-returned left i returned r more own each)
