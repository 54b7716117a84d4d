-- ===== src/Client/Whole/Channels.antt =====
-- Channels by their numbers: what was sent on them, and who holds their senders, in src/client.rs.
use quic_serve.Prelude.{
  ℕ, ◌+◌, ◌≤◌, ◌≡◌, refl, ◌∙◌, true, false, none, some, Bool-cases, inl, inr, [], ◌∷◌, ◌++◌, Assoc,
  get, remove, get-remove, nat_eq, ◌==◌, arith, beq_refl,
}
use quic_serve.Error.{Error, connection_closed, Result, err}
use quic_serve.Message.{Bytes}
use quic_serve.Client.{Channel}
use quic_serve.Client.Lifecycle.{closings}
use quic_serve.Client.Once.{bit, waits_for, waits_for-get, results_on, Results}
use quic_serve.Client.Whole.{result_for, holds_sender}

pub result_for-append :
    (n : ℕ) (rs qs : Results) → result_for n rs ≡ none → result_for n (rs ++ qs) ≡ result_for n qs
result_for-append n [] qs h = refl
result_for-append n ((c, r) ∷ rs) qs h = ground (arith, result_for-append n rs qs)

pub result_for-kept :
    (n : ℕ) (rs qs : Results) (r : Result Error Bytes)
    → result_for n rs ≡ some r
    → result_for n (rs ++ qs) ≡ some r
result_for-kept n [] qs r h = cc
result_for-kept n ((c, q) ∷ rs) qs r h = ground (arith, result_for-kept n rs qs r)

pub holds_sender-get :
    (id : ℕ) (c : Channel) (m : Assoc ℕ Channel)
    → get id m ≡ some c
    → holds_sender c.serial m ≡ true
unfolding get
holds_sender-get id c [] h = cc
holds_sender-get id c ((j, d) ∷ m) h = elim (Bool-cases (j == id)) [
  | inl hit ↦ let same : d ≡ c = ground arith in rw (same, beq_refl c.serial) refl
  | inr miss ↦ let rest = holds_sender-get id c m (ground arith) in ground (arith, rest)
]

pub result_for-closings :
    (n : ℕ) (m : Assoc ℕ Channel)
    → holds_sender n m ≡ true
    → result_for n (closings m) ≡ some (err connection_closed)
result_for-closings n [] h = cc
result_for-closings n ((j, c) ∷ m) h = ground (arith, result_for-closings n m)

-- Two requests that wait on one channel would be counted twice.
waits_for-two :
    (n i j : ℕ) (c d : Channel) (m : Assoc ℕ Channel)
    → get i m ≡ some c
    → get j m ≡ some d
    → (j == i) ≡ false
    → bit (c.serial == n) + bit (d.serial == n) ≤ waits_for n m
waits_for-two n i j c d m hc hd differ =
    let still : get i (remove j m) ≡ some c = get-remove j i m ∙ (rw differ refl ∙ hc) in
    omega (arith, waits_for-get n j d m hd, waits_for-get n i c (remove j m) still)

pub not_shared :
    (i j : ℕ) (c d : Channel) (m : Assoc ℕ Channel) (rs : Results)
    → waits_for c.serial m + results_on c.serial rs ≤ 1
    → get i m ≡ some c
    → get j m ≡ some d
    → (j == i) ≡ false
    → (d.serial == c.serial) ≡ false
not_shared i j c d m rs once hc hd differ = elim (Bool-cases (d.serial == c.serial)) [
  | inl hit ↦
      let own : bit (c.serial == c.serial) ≡ 1 = rw (beq_refl c.serial) refl in
      let same : bit (d.serial == c.serial) ≡ 1 = rw hit refl in
      absurd (omega (arith, waits_for-two c.serial i j c d m hc hd differ))
  | inr miss ↦ miss
]

pub result_for-none : (n : ℕ) (rs : Results) → results_on n rs ≡ 0 → result_for n rs ≡ none
result_for-none n [] h = refl
result_for-none n ((c, r) ∷ rs) h = ground (arith, result_for-none n rs)
