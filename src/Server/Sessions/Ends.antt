-- ===== src/Server/Sessions/Ends.antt =====
-- A session whose turn comes often enough ends, whatever else happens: src/server.rs.
use quic_serve.Prelude.{
  ℕ, zero, suc, ◌+◌, ◌*◌, Option, none, some, List, [], ◌∷◌, length, string_eq, ◌==◌, if◌then◌else◌,
}
use quic_serve.Error.{Error, Result}
use quic_serve.Config.{Config}
use quic_serve.Service.{Service}
use quic_serve.Server.Sessions.{Call, Task, Happening, goes_on}

-- How many turns a task has before it, at most.
abbrev turns_left :
    {World : Type 0} → Option (Result Error (Unit {0})) → Option (Call World) → ℕ → ℕ
turns_left (some _) calling n = 0
turns_left none (some call) n = 2 * n + 2
turns_left none none n = 2 * n + 1

abbrev left : {World : Type 0} → Task World → ℕ
left t = turns_left t.outcome t.calling (length t.stream.inbox)

-- How often it is the n-th session's turn.
abbrev pub turns : {World : Type 0} → ℕ → List (Happening World) → ℕ
turns n [] = 0
turns n (goes_on m ∷ hs) = (if m == n then 1 else 0) + turns n hs
turns n (_ ∷ hs) = turns n hs

abbrev pub nth : {A : Type 0} → ℕ → List A → Option A
nth n [] = none
nth zero (a ∷ l) = some a
nth (suc n) (a ∷ l) = nth n l
