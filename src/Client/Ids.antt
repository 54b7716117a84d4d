-- ===== src/Client/Ids.antt =====
-- Request ids: they count up from 0 and are not used twice among 2 ^ 64 in a row.
use quic_serve.Prelude.{ℕ, zero, suc, ◌+◌, ◌%◌, ◌<◌, ◌≡◌, ◌≢◌, arith}
use quic_serve.Client.{u64_mod, Shared, next_request_id}

module _ {Session : Type 0} where
  -- The state after so many ids have been handed out.
  unfoldable pub after_ids : ℕ → Shared Session → Shared Session
  after_ids zero s = s
  after_ids (suc n) s = after_ids n (next_request_id s).1

  -- The id that is handed out after so many others.
  abbrev pub nth_id : ℕ → Shared Session → ℕ
  nth_id n s = (next_request_id (after_ids n s)).0

  -- The n-th id, counted from 0, is the first one plus n, wrapped around at 2 ^ 64.
  pub nth_id-eq :
      (n : ℕ) (s : Shared Session) → s.next_id < u64_mod → nth_id n s ≡ (s.next_id + n) % u64_mod
  unfolding after_ids next_request_id
  nth_id-eq zero s h = omega arith
  nth_id-eq (suc n) s h = omega (arith, nth_id-eq n (next_request_id s).1)

  -- Of 2 ^ 64 ids that are handed out in a row no two are the same.
  pub nth_id-ne :
      (m n : ℕ) (s : Shared Session)
      → s.next_id < u64_mod
      → m < n
      → n < m + u64_mod
      → nth_id m s ≢ nth_id n s
  nth_id-ne m n s h lt near = omega (arith, nth_id-eq m s h, nth_id-eq n s h)
