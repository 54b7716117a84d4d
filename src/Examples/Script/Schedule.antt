-- ===== src/Examples/Script/Schedule.antt =====
-- The ten tasks of examples/rpc_client.rs, in whatever order they take their steps.
use quic_serve.Prelude.{
  ℕ, ◌≡◌, refl, sym, ◌∙◌, Option, none, some, List, [], ◌∷◌, ◌⊎◌, inl, inr, Assoc, get, insert,
  remove, get-insert, get-remove, beq_refl, nat_eq, ◌==◌, ==→≡, Bool-cases, subst, false,
}
use quic_serve.Error.{Error, Result, ok, err}
use quic_serve.Transport.{Wire}
use quic_serve.Client.{Channel, Shared}
use quic_serve.Examples.Echo.{EchoRequest}
use quic_serve.Examples.Script.{
  TaskStep, begins, ends, Others, Tasks, Messages, begun, beginning, ended, task_step, run_tasks,
}

-- The wait of task i ends.
pub data WaitEnds (i : ℕ) : List TaskStep → Type 0 where
  ends_now : {steps : List TaskStep} → WaitEnds i (ends i ∷ steps)
  ends_later : {x : TaskStep} {steps : List TaskStep} → WaitEnds i steps → WaitEnds i (x ∷ steps)

-- Task i begins, and its wait ends later.
pub data IsScheduled (i : ℕ) : List TaskStep → Type 0 where
  begins_now : {steps : List TaskStep} → WaitEnds i steps → IsScheduled i (begins i ∷ steps)
  begins_later :
      {x : TaskStep} {steps : List TaskStep} → IsScheduled i steps → IsScheduled i (x ∷ steps)

abbrev pub Has : {V : Type 0} → Option V → Type 0
Has {V} o = (v : V) × (o ≡ some v)

module _ {V : Type 0} where
  Has-insert_same : (k : ℕ) (v : V) (m : Assoc ℕ V) → Has (get k (insert k v m))
  Has-insert_same k v m = (v, get-insert k k v m ∙ rw (beq_refl k) refl)

  Has-insert : (k j : ℕ) (v : V) (m : Assoc ℕ V) → Has (get j m) → Has (get j (insert k v m))
  Has-insert k j v m (u, found) = elim (Bool-cases (k == j)) [
    | inl hit ↦ (v, get-insert k j v m ∙ rw hit refl)
    | inr miss ↦ (u, get-insert k j v m ∙ (rw miss refl ∙ found))
  ]

  Has-remove :
      (k j : ℕ) (m : Assoc ℕ V) → (k == j) ≡ false → Has (get j m) → Has (get j (remove k m))
  Has-remove k j m miss (u, found) = (u, get-remove k j m ∙ (rw miss refl ∙ found))

-- How far task j has come at least.
abbrev HasReturned : {Session : Type 0} → ℕ → Tasks Session → Type 0
HasReturned j t = Has (get j t.returned)

abbrev HasBegun : {Session : Type 0} → ℕ → Tasks Session → Type 0
HasBegun j t = Has (get j t.waiting) ⊎ HasReturned j t

abbrev IsThere : {Session : Type 0} → ℕ → Tasks Session → Type 0
IsThere j t = Has (get j t.spawned) ⊎ HasBegun j t

module _ {Session : Type 0} where
  begun-own :
      (i : ℕ) (x : Result Error Channel × Shared Session) (t : Tasks Session)
      → HasBegun i (begun i x t)
  begun-own i (err e, s) t = inr (Has-insert_same i (err e) t.returned)
  begun-own i (ok c, s) t = inl (Has-insert_same i c t.waiting)

  begun-HasReturned :
      (i j : ℕ) (x : Result Error Channel × Shared Session) (t : Tasks Session)
      → HasReturned j t
      → HasReturned j (begun i x t)
  begun-HasReturned i j (err e, s) t h = Has-insert i j (err e) t.returned h
  begun-HasReturned i j (ok c, s) t h = h

  begun-HasBegun :
      (i j : ℕ) (x : Result Error Channel × Shared Session) (t : Tasks Session)
      → HasBegun j t
      → HasBegun j (begun i x t)
  begun-HasBegun i j x t (inr h) = inr (begun-HasReturned i j x t h)
  begun-HasBegun i j (err e, s) t (inl h) = inl h
  begun-HasBegun i j (ok c, s) t (inl h) = inl (Has-insert i j c t.waiting h)

  spawned-begun :
      (i : ℕ) (x : Result Error Channel × Shared Session) (t : Tasks Session)
      → (begun i x t).spawned ≡ t.spawned
  spawned-begun i (err e, s) t = refl
  spawned-begun i (ok c, s) t = refl

module _ {Session F : Type 0} (wire : Wire) (messages : Messages F) (others : Others Session) where
  beginning-HasBegun :
      (i j : ℕ) (o : Option EchoRequest) (t : Tasks Session)
      → HasBegun j t
      → HasBegun j (beginning wire messages others i o t)
  beginning-HasBegun i j none t h = h
  beginning-HasBegun i j (some request) t h =
      begun-HasBegun i j _ (record t { spawned = remove i t.spawned }) h

  beginning-HasReturned :
      (i j : ℕ) (o : Option EchoRequest) (t : Tasks Session)
      → HasReturned j t
      → HasReturned j (beginning wire messages others i o t)
  beginning-HasReturned i j none t h = h
  beginning-HasReturned i j (some request) t h =
      begun-HasReturned i j _ (record t { spawned = remove i t.spawned }) h

  -- A task that is there has begun once it gets to its call.
  begins-HasBegun :
      (i : ℕ) (t : Tasks Session)
      → IsThere i t
      → HasBegun i (task_step wire messages others (begins i) t)
  unfolding task_step
  begins-HasBegun i t (inr h) = beginning-HasBegun i i (get i t.spawned) t h
  begins-HasBegun i t (inl (request, found)) =
      rw found (begun-own i _ (record t { spawned = remove i t.spawned }))

  beginning-IsThere :
      (i j : ℕ) (o : Option EchoRequest) (t : Tasks Session)
      → (i == j) ≡ false
      → Has (get j t.spawned)
      → Has (get j (beginning wire messages others i o t).spawned)
  beginning-IsThere i j none t miss h = h
  beginning-IsThere i j (some request) t miss h =
      rw (spawned-begun i _ (record t { spawned = remove i t.spawned }))
        (Has-remove i j t.spawned miss h)

  ended-HasReturned :
      (i j : ℕ) (o : Option Channel) (t : Tasks Session)
      → HasReturned j t
      → HasReturned j (ended wire messages others i o t)
  ended-HasReturned i j none t h = h
  ended-HasReturned i j (some c) t h = Has-insert i j _ t.returned h

  ended-HasBegun :
      (i j : ℕ) (o : Option Channel) (t : Tasks Session)
      → HasBegun j t
      → HasBegun j (ended wire messages others i o t)
  ended-HasBegun i j o t (inr h) = inr (ended-HasReturned i j o t h)
  ended-HasBegun i j none t (inl h) = inl h
  ended-HasBegun i j (some c) t (inl h) = elim (Bool-cases (i == j)) [
    | inl hit ↦ inr (rw (sym (==→≡ i j hit)) (Has-insert_same i _ t.returned))
    | inr miss ↦ inl (Has-remove i j t.waiting miss h)
  ]

  ends-HasReturned :
      (i : ℕ) (t : Tasks Session)
      → HasBegun i t
      → HasReturned i (task_step wire messages others (ends i) t)
  unfolding task_step
  ends-HasReturned i t (inr h) = ended-HasReturned i i (get i t.waiting) t h
  ends-HasReturned i t (inl (c, found)) = rw found (Has-insert_same i _ t.returned)

  spawned-ended :
      (i : ℕ) (o : Option Channel) (t : Tasks Session)
      → (ended wire messages others i o t).spawned ≡ t.spawned
  spawned-ended i none t = refl
  spawned-ended i (some c) t = refl

  task_step-HasReturned :
      (x : TaskStep) (j : ℕ) (t : Tasks Session)
      → HasReturned j t
      → HasReturned j (task_step wire messages others x t)
  unfolding task_step
  task_step-HasReturned (begins i) j t h = beginning-HasReturned i j (get i t.spawned) t h
  task_step-HasReturned (ends i) j t h = ended-HasReturned i j (get i t.waiting) t h

  task_step-HasBegun :
      (x : TaskStep) (j : ℕ) (t : Tasks Session)
      → HasBegun j t
      → HasBegun j (task_step wire messages others x t)
  unfolding task_step
  task_step-HasBegun (begins i) j t h = beginning-HasBegun i j (get i t.spawned) t h
  task_step-HasBegun (ends i) j t h = ended-HasBegun i j (get i t.waiting) t h

  task_step-IsThere :
      (x : TaskStep) (j : ℕ) (t : Tasks Session)
      → IsThere j t
      → IsThere j (task_step wire messages others x t)
  unfolding task_step
  task_step-IsThere x j t (inr h) = inr (task_step-HasBegun x j t h)
  task_step-IsThere (begins i) j t (inl h) = elim (Bool-cases (i == j)) [
    | inl hit ↦ inr (
        subst (λ k. HasBegun k (task_step wire messages others (begins i) t)) (==→≡ i j hit)
          (begins-HasBegun i t (inl (subst (λ k. Has (get k t.spawned)) (sym (==→≡ i j hit)) h))))
    | inr miss ↦ inl (beginning-IsThere i j (get i t.spawned) t miss h)
  ]
  task_step-IsThere (ends i) j t (inl h) = inl (rw (spawned-ended i (get i t.waiting) t) h)

  run_tasks-HasReturned :
      (steps : List TaskStep) (j : ℕ) (t : Tasks Session)
      → HasReturned j t
      → HasReturned j (run_tasks wire messages others steps t)
  unfolding run_tasks
  run_tasks-HasReturned [] j t h = h
  run_tasks-HasReturned (x ∷ steps) j t h =
      run_tasks-HasReturned steps j _ (task_step-HasReturned x j t h)

  run_tasks-WaitEnds :
      (steps : List TaskStep) (j : ℕ) (t : Tasks Session)
      → WaitEnds j steps
      → HasBegun j t
      → HasReturned j (run_tasks wire messages others steps t)
  unfolding run_tasks
  run_tasks-WaitEnds [] j t never h = elim never [ ]
  run_tasks-WaitEnds (_ ∷ steps) j t ends_now h =
      run_tasks-HasReturned steps j _ (ends-HasReturned j t h)
  run_tasks-WaitEnds (x ∷ steps) j t (ends_later later) h =
      run_tasks-WaitEnds steps j _ later (task_step-HasBegun x j t h)

  -- A task that is there and is scheduled has returned in the end.
  pub run_tasks-IsScheduled :
      (steps : List TaskStep) (j : ℕ) (t : Tasks Session)
      → IsScheduled j steps
      → IsThere j t
      → HasReturned j (run_tasks wire messages others steps t)
  unfolding run_tasks
  run_tasks-IsScheduled [] j t never h = elim never [ ]
  run_tasks-IsScheduled (_ ∷ steps) j t (begins_now waits) h =
      run_tasks-WaitEnds steps j _ waits (begins-HasBegun j t h)
  run_tasks-IsScheduled (x ∷ steps) j t (begins_later later) h =
      run_tasks-IsScheduled steps j _ later (task_step-IsThere x j t h)
