-- ===== src/Bindings/Php/Memory/Balance.antt =====
-- Every reference that a callback holds is given back once: src/bindings/php.rs.
use mathlib.Core.List.Perm
use mathlib.Core.List.{Perm, perm_middle}
use quic_serve.Prelude.{
  ℕ, ◌+◌, String, ◌≡◌, refl, Option, none, some, List, [], ◌∷◌, ◌++◌, get, remove, insert,
  remove_absent, UniqueKeys, insert-UniqueKeys, string_eq, str_eq, eq_iff, true, false, Bool-cases,
  subst, inl, inr, arith, append-nil, append_assoc,
}
use quic_serve.Bindings.Php.{Methods, register_method, null, null_text, text}
use quic_serve.Bindings.Php.Memory.{
  Use, registers, invokes, use_one, use_all, Ledger, untouched, values, new_callback, drop_callback,
  drop_old, invoke_memory, register_callback, drop_methods,
}

module _ {ZVal : Type 0} where
  -- The result of a call that is not a text.
  abbrev pub lost_by : Use ZVal → List ZVal
  lost_by (invokes true name payload retval (true, null_text)) = retval ∷ []
  lost_by _ = []

  abbrev pub lost : List (Use ZVal) → List ZVal
  lost [] = []
  lost (u ∷ uses) = lost uses ++ lost_by u

  -- The references that were taken are those that were given back, those that the table holds, and those
  -- that are lost.
  pub record Balanced (methods : Methods ZVal) (l : Ledger ZVal) (gone : List ZVal) : Type 0 where
    pub unique : UniqueKeys methods
    pub references : Perm l.taken ((gone ++ l.released) ++ values methods)

  values-remove :
      (k : String) (v : ZVal) (m : Methods ZVal)
      → UniqueKeys m
      → get k m ≡ some v
      → Perm (values m) (v ∷ values (remove k m))
  unfolding get remove
  values-remove k v [] unique found = cc
  values-remove k v ((j, u) ∷ m) (free, unique) found = elim (Bool-cases (str_eq j k)) [
    | inl hit ↦
        let absent : get k m ≡ none = subst (λ x. get x m ≡ none) ((eq_iff j k).0 hit) free in
        let same : u ≡ v = ground arith in rw (hit, remove_absent k m absent, same) Perm.rfl
    | inr miss ↦
        let rest : get k m ≡ some v = ground arith in
        rw miss (Perm.trans (Perm.cons u (values-remove k v m unique rest)) (Perm.swap v u _))
  ]

  -- A reference that is taken may go to the table, or be given back.
  to_table :
      (x : ZVal) (t g r w : List ZVal) → Perm t ((g ++ r) ++ w) → Perm (x ∷ t) ((g ++ r) ++ (x ∷ w))
  to_table x t g r w h = Perm.trans (Perm.cons x h) (Perm.symm (perm_middle (g ++ r) w))

  given_back :
      (x : ZVal) (t g r w : List ZVal) → Perm t ((g ++ r) ++ w) → Perm (x ∷ t) ((g ++ (x ∷ r)) ++ w)
  given_back x t g r w h =
      Perm.trans (Perm.cons x h) (Perm.symm (Perm.append_right w (perm_middle g r)))

  -- One that the table holds may be given back.
  from_table : (x : ZVal) (g r w : List ZVal) → Perm ((g ++ r) ++ (x ∷ w)) ((g ++ (x ∷ r)) ++ w)
  from_table x g r w = Perm.trans (perm_middle (g ++ r) w) (given_back x _ g r w Perm.rfl)

  replaced :
      (k : String) (v : ZVal) (m : Methods ZVal) (l : Ledger ZVal) (gone : List ZVal)
      (o : Option ZVal)
      → get k m ≡ o
      → Balanced m l gone
      → Balanced (insert k v m) (drop_old o (new_callback v l)) gone
  unfolding insert new_callback drop_callback
  replaced k v m l gone none absent b = record {
    unique = insert-UniqueKeys k v m b.unique;
    references =
        rw (remove_absent k m absent) (to_table v l.taken gone l.released (values m) b.references);
  }
  replaced k v m l gone (some u) found b = record {
    unique = insert-UniqueKeys k v m b.unique;
    references = to_table v l.taken gone (u ∷ l.released) (values (remove k m)) (
        Perm.trans b.references (
          Perm.trans (Perm.append_left (gone ++ l.released) (values-remove k u m b.unique found))
            (from_table u gone l.released (values (remove k m)))));
  }

  called :
      (name payload : ZVal) (m : Methods ZVal) (l : Ledger ZVal) (gone : List ZVal)
      → Balanced m l gone
      → Perm (payload ∷ name ∷ l.taken) ((gone ++ (payload ∷ name ∷ l.released)) ++ values m)
  called name payload m l gone b =
      given_back payload _ gone _ (values m) (given_back name _ gone _ (values m) b.references)

  use_one-Balanced :
      (u : Use ZVal) (m : Methods ZVal) (l : Ledger ZVal) (gone : List ZVal)
      → Balanced m l gone
      → Balanced (use_one u (m, l)).0 (use_one u (m, l)).1 (lost_by u ++ gone)
  unfolding register_callback register_method invoke_memory
  use_one-Balanced (registers method callback) m l gone b =
      replaced method callback m l gone (get method m) refl b
  use_one-Balanced (invokes false name payload retval result) m l gone b = b
  use_one-Balanced (invokes true name payload retval (true, text bytes)) m l gone b = record {
    unique = b.unique;
    references = given_back retval _ gone _ (values m) (called name payload m l gone b);
  }
  use_one-Balanced (invokes true name payload retval (true, null_text)) m l gone b = record {
    unique = b.unique;
    references = Perm.cons retval (called name payload m l gone b);
  }
  use_one-Balanced (invokes true name payload retval (true, null)) m l gone b = record {
    unique = b.unique;
    references = called name payload m l gone b;
  }
  use_one-Balanced (invokes true name payload retval (false, r)) m l gone b = record {
    unique = b.unique;
    references = called name payload m l gone b;
  }

  use_all-Balanced :
      (uses : List (Use ZVal)) (m : Methods ZVal) (l : Ledger ZVal) (gone : List ZVal)
      → Balanced m l gone
      → Balanced (use_all uses (m, l)).0 (use_all uses (m, l)).1 (lost uses ++ gone)
  use_all-Balanced [] m l gone b = b
  use_all-Balanced (u ∷ uses) m l gone b = rw (append_assoc (lost uses) (lost_by u) gone) (
      use_all-Balanced uses (use_one u (m, l)).0 (use_one u (m, l)).1 (lost_by u ++ gone)
        (use_one-Balanced u m l gone b))

  drop_methods-released :
      (m : Methods ZVal) (l : Ledger ZVal) (gone : List ZVal)
      → Balanced m l gone
      → Perm (drop_methods m l).taken (gone ++ (drop_methods m l).released)
  unfolding drop_methods
  drop_methods-released [] l gone b =
      subst (λ x. Perm l.taken x) (append-nil (gone ++ l.released)) b.references
  drop_methods-released ((k, v) ∷ m) l gone b =
      drop_methods-released m (drop_callback v l) gone (record {
        unique = b.unique.1;
        references = Perm.trans b.references (from_table v gone l.released (values m));
      })

  -- The boxes that a use makes.
  abbrev pub made_by : Use ZVal → ℕ
  made_by (registers method callback) = 1
  made_by (invokes true name payload retval result) = 3
  made_by (invokes false name payload retval result) = 0

  abbrev pub made : List (Use ZVal) → ℕ
  made [] = 0
  made (u ∷ uses) = made_by u + made uses

  boxes-drop_old : (o : Option ZVal) (l : Ledger ZVal) → (drop_old o l).boxes ≡ l.boxes
  unfolding drop_callback
  boxes-drop_old none l = refl
  boxes-drop_old (some v) l = refl

  boxes-use_one :
      (u : Use ZVal) (m : Methods ZVal) (l : Ledger ZVal)
      → (use_one u (m, l)).1.boxes ≡ l.boxes + made_by u
  unfolding register_callback new_callback invoke_memory
  boxes-use_one (registers method callback) m l =
      boxes-drop_old (get method m) (new_callback callback l)
  boxes-use_one (invokes false name payload retval result) m l = omega arith
  boxes-use_one (invokes true name payload retval (true, text bytes)) m l = refl
  boxes-use_one (invokes true name payload retval (true, null_text)) m l = refl
  boxes-use_one (invokes true name payload retval (true, null)) m l = refl
  boxes-use_one (invokes true name payload retval (false, r)) m l = refl

  boxes-use_all :
      (uses : List (Use ZVal)) (m : Methods ZVal) (l : Ledger ZVal)
      → (use_all uses (m, l)).1.boxes ≡ l.boxes + made uses
  boxes-use_all [] m l = omega arith
  boxes-use_all (u ∷ uses) m l =
      omega
        (arith, boxes-use_all uses (use_one u (m, l)).0 (use_one u (m, l)).1, boxes-use_one u m l)

  boxes-drop_methods : (m : Methods ZVal) (l : Ledger ZVal) → (drop_methods m l).boxes ≡ l.boxes
  unfolding drop_methods drop_callback
  boxes-drop_methods [] l = refl
  boxes-drop_methods ((_, v) ∷ m) l = boxes-drop_methods m (drop_callback v l)

  -- However methods are registered on a server and invoked, and its service is then dropped, every
  -- reference that was taken to a value of PHP has been given back exactly once, but those to the results
  -- of calls that are no texts: these are never given back. A method that is registered again gives the
  -- reference to its old callback back. Of the boxes that were made, one for each registration and three
  -- for each call, none is ever freed.
  pub use_all-released :
      (uses : List (Use ZVal))
      → (methods : Methods ZVal) × (l : Ledger ZVal) × (use_all uses ([], untouched) ≡ (methods, l))
        × Perm (drop_methods methods l).taken (lost uses ++ (drop_methods methods l).released)
        × ((drop_methods methods l).boxes ≡ made uses)
  use_all-released uses =
      let (methods, l) = use_all uses ([], untouched) in
      let b =
        use_all-Balanced uses [] untouched [] (record { unique = tt; references = Perm.rfl }) in
      (
        methods,
        l,
        refl,
        drop_methods-released methods l (lost uses)
            (subst (Balanced methods l) (append-nil (lost uses)) b),
        omega (arith, boxes-drop_methods methods l, boxes-use_all uses [] untouched),
      )
