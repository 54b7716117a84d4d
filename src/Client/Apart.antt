-- ===== src/Client/Apart.antt =====
-- The calls of one batch wait apart: in src/client.rs each has an id of its own, for as many calls as
-- there are ids.
use quic_serve.Prelude.{
  ℕ, ◌+◌, ◌%◌, ◌<◌, ◌≤◌, ◌≡◌, ◌≢◌, refl, ◌∙◌, some, List, [], ◌∷◌, Assoc, get, remove, nat_eq,
  get-insert, get-remove, beq_refl, All, arith, length, ◌==◌, false,
}
use quic_serve.Message.{Request}
use quic_serve.Client.{u64_mod, Channel, Shared}
use quic_serve.Client.Calls.{next_channel, waiting}
use quic_serve.Client.Batch.{channels, all_waiting}

abbrev pub IsOther : ℕ → Channel → Type 0
IsOther id c = id ≢ c.request_id

abbrev pub AreApart : List Channel → Type 0
AreApart [] = Unit
AreApart (c ∷ cs) = All (IsOther c.request_id) cs × AreApart cs

-- Each channel is pending under its request id.
abbrev pub ArePending : Assoc ℕ Channel → List Channel → Type 0
ArePending m = All (λ c. get c.request_id m ≡ some c)

channels-IsOther :
    (reqs : List Request) (opened k j id : ℕ)
    → k < u64_mod
    → id ≡ (k + j) % u64_mod
    → 0 < j
    → j + length reqs ≤ u64_mod
    → All (IsOther k) (channels opened id reqs)
channels-IsOther [] opened k j id h e p l = tt
channels-IsOther (_ ∷ reqs) opened k j id h e p l = (
  omega arith,
  channels-IsOther reqs (opened + 1) k (j + 1) ((id + 1) % u64_mod) h (omega arith) (omega arith)
      (omega arith),
)

pub channels-AreApart :
    (reqs : List Request) (opened id : ℕ)
    → id < u64_mod
    → length reqs ≤ u64_mod
    → AreApart (channels opened id reqs)
channels-AreApart [] opened id h l = tt
channels-AreApart (_ ∷ reqs) opened id h l = (
  channels-IsOther reqs (opened + 1) id 1 ((id + 1) % u64_mod) h refl (omega arith) (omega arith),
  channels-AreApart reqs (opened + 1) ((id + 1) % u64_mod) (omega arith) (omega arith),
)

apart : (j k : ℕ) → j ≢ k → (j == k) ≡ false
apart j k ne = ground arith

pub remove-ArePending :
    (id : ℕ) (m : Assoc ℕ Channel) (cs : List Channel)
    → All (IsOther id) cs
    → ArePending m cs
    → ArePending (remove id m) cs
remove-ArePending id m [] o h = tt
remove-ArePending id m (c ∷ cs) (ne, o) (found, h) = (
  get-remove id c.request_id m ∙ rw (apart id c.request_id ne) found,
  remove-ArePending id m cs o h,
)

module _ {Session : Type 0} where
  get-all_waiting :
      (reqs : List Request) (s : Shared Session) (id : ℕ) (c : Channel)
      → All (IsOther id) (channels s.opened s.next_id reqs)
      → get id s.pending ≡ some c
      → get id (all_waiting reqs s).pending ≡ some c
  get-all_waiting [] s id c o found = found
  get-all_waiting (_ ∷ reqs) s id c (ne, o) found = get-all_waiting reqs (waiting s) id c o (
      get-insert s.next_id id (next_channel s) s.pending
      ∙ rw (apart s.next_id id (λ e. ne (omega (arith, e)))) found)

  pub all_waiting-ArePending :
      (reqs : List Request) (s : Shared Session)
      → AreApart (channels s.opened s.next_id reqs)
      → ArePending (all_waiting reqs s).pending (channels s.opened s.next_id reqs)
  all_waiting-ArePending [] s a = tt
  all_waiting-ArePending (_ ∷ reqs) s (o, a) = (
    get-all_waiting reqs (waiting s) s.next_id (next_channel s) o
        (get-insert s.next_id s.next_id (next_channel s) s.pending ∙ rw (beq_refl s.next_id) refl),
    all_waiting-ArePending reqs (waiting s) a,
  )
