-- ===== src/DeepCopy/Apart.antt =====
-- A copy shares no memory with what it was copied from.
use mathlib.Core.Path.{Path}
use provider_k3s.Base.{
  ℕ, ◌≤◌, ◌<◌, All, false, Option, none, some, List, [], ◌∷◌, map, ◌==◌, nat_eq, nat_beq_iff, arith,
  ◌≡◌, refl, ap, sym, ◌∙◌, subst,
}
use provider_k3s.DeepCopy.{
  Arena, push, Copier, plain_copier, fields, view_pointer, copy_pointer, pointer, copy_each, each,
}

-- `Old h q`: `q` has the cells of `h`. `New h h' q`: `q` has the cells that `h'` has beyond `h`. What is read of a value
-- depends on its own cells alone, and those of a copy are new.
pub record Cells {H T V : Type 0} (c : Copier H T V) : Type 1 where
  pub Old : H → H → Type 0
  pub New : H → H → H → Type 0
  pub Valid : H → T → Type 0
  pub old-refl : (h : H) → Old h h
  pub old-trans : (h q r : H) → Old h q → Old q r → Old h r
  pub new-refl : (h h' : H) → New h h' h'
  pub new-first : (h h₁ h₂ q : H) → Old h h₁ → Old h₁ h₂ → New h h₂ q → New h h₁ q
  pub new-rest : (h h₁ h₂ q : H) → Old h h₁ → New h h₂ q → New h₁ h₂ q
  pub valid-old : (h q : H) (t : T) → Valid h t → Old h q → Valid q t
  pub view-old : (h q : H) (t : T) → Valid h t → Old h q → c.view q t ≡ c.view h t
  pub copy-old : (h : H) (t : T) → Old h (c.copy h t).1
  pub copy-new :
      (h q : H) (t : T) → Valid h t → New h (c.copy h t).1 q → c.view q (c.copy h t).0 ≡ c.view h t

pub pair_eq : {A B : Type 0} {a a' : A} {b b' : B} → a ≡ a' → b ≡ b' → Path (A × B) (a, b) (a', b')
pair_eq h k = cc

cons_eq : {A : Type 0} {a a' : A} {s s' : List A} → a ≡ a' → s ≡ s' → a ∷ s ≡ a' ∷ s'
cons_eq h k = cc

nat_beq_ne : (i n : ℕ) → i < n → (i == n) ≡ false
nat_beq_ne i n l = ground (arith, nat_beq_iff i n)

unfoldable pub plain_cells : (T : Type 0) → Cells (plain_copier T)
plain_cells T = record {
  Old = λ _ _. Unit {0};
  New = λ _ _ _. Unit {0};
  Valid = λ _ _. Unit {0};
  old-refl = λ _. tt;
  old-trans = λ _ _ _ _ _. tt;
  new-refl = λ _ _. tt;
  new-first = λ _ _ _ _ _ _ _. tt;
  new-rest = λ _ _ _ _ _ _. tt;
  valid-old = λ _ _ _ _ _. tt;
  view-old = λ _ _ _ _ _. refl;
  copy-old = λ _ _. tt;
  copy-new = λ _ _ _ _ _. refl;
}

module _ {H T V : Type 0} (c : Copier H T V) (x : Cells c) where
  module _ {K U Z : Type 0} (d : Copier K U Z) (y : Cells d) where
    unfoldable pub fields_cells : Cells (fields c d)
    fields_cells = record {
      Old = λ m q. x.Old m.0 q.0 × y.Old m.1 q.1;
      New = λ m n q. x.New m.0 n.0 q.0 × y.New m.1 n.1 q.1;
      Valid = λ m t. x.Valid m.0 t.0 × y.Valid m.1 t.1;
      old-refl = λ m. (x.old-refl m.0, y.old-refl m.1);
      old-trans = λ m q r o p. (x.old-trans m.0 q.0 r.0 o.0 p.0, y.old-trans m.1 q.1 r.1 o.1 p.1);
      new-refl = λ m n. (x.new-refl m.0 n.0, y.new-refl m.1 n.1);
      new-first = λ m n o q a b e.
          (x.new-first m.0 n.0 o.0 q.0 a.0 b.0 e.0, y.new-first m.1 n.1 o.1 q.1 a.1 b.1 e.1);
      new-rest =
          λ m n o q a e. (x.new-rest m.0 n.0 o.0 q.0 a.0 e.0, y.new-rest m.1 n.1 o.1 q.1 a.1 e.1);
      valid-old = λ m q t v o. (x.valid-old m.0 q.0 t.0 v.0 o.0, y.valid-old m.1 q.1 t.1 v.1 o.1);
      view-old =
          λ m q t v o. pair_eq (x.view-old m.0 q.0 t.0 v.0 o.0) (y.view-old m.1 q.1 t.1 v.1 o.1);
      copy-old = λ m t. (x.copy-old m.0 t.0, y.copy-old m.1 t.1);
      copy-new =
          λ m q t v n. pair_eq (x.copy-new m.0 q.0 t.0 v.0 n.0) (y.copy-new m.1 q.1 t.1 v.1 n.1);
    }

-- The cells of an arena before another, and those that it has beyond another.
abbrev ArenaOld : {T : Type 0} → Arena T → Arena T → Type 0
ArenaOld a b = (a.size ≤ b.size) × ((i : ℕ) → i < a.size → b.cell i ≡ a.cell i)

abbrev ArenaNew : {T : Type 0} → Arena T → Arena T → Arena T → Type 0
ArenaNew a a' b = (i : ℕ) → a.size ≤ i → i < a'.size → b.cell i ≡ a'.cell i

module _ {T : Type 0} where
  pub ArenaOld-trans : (a b e : Arena T) → ArenaOld a b → ArenaOld b e → ArenaOld a e
  ArenaOld-trans a b e (h, f) (k, g) = (omega arith, λ i l. g i (omega arith) ∙ f i l)

  pub ArenaNew-first :
      (a a₁ a₂ b : Arena T) → ArenaOld a a₁ → ArenaOld a₁ a₂ → ArenaNew a a₂ b → ArenaNew a a₁ b
  ArenaNew-first a a₁ a₂ b (h, f) (k, g) n i l r = n i l (omega arith) ∙ g i r

  pub ArenaNew-rest : (a a₁ a₂ b : Arena T) → ArenaOld a a₁ → ArenaNew a a₂ b → ArenaNew a₁ a₂ b
  ArenaNew-rest a a₁ a₂ b (h, f) n i l r = n i (omega arith) r

  push-ArenaOld : (a : Arena T) (t : T) → ArenaOld a (push a t)
  push-ArenaOld a t = (omega arith, λ i l. rw (nat_beq_ne i a.size l) refl)

  push-last : (a : Arena T) (t : T) → (push a t).cell a.size ≡ t
  push-last a t = rw ((nat_beq_iff a.size a.size).1 refl) refl

module _ {H T V : Type 0} (c : Copier H T V) (x : Cells c) where
  abbrev ValidPointer : H × Arena T → Option ℕ → Type 0
  ValidPointer m none = Unit {0}
  ValidPointer m (some p) = (p < m.1.size) × x.Valid m.0 (m.1.cell p)

  abbrev PointerOld : H × Arena T → H × Arena T → Type 0
  PointerOld m q = x.Old m.0 q.0 × ArenaOld m.1 q.1

  abbrev PointerNew : H × Arena T → H × Arena T → H × Arena T → Type 0
  PointerNew m n q = x.New m.0 n.0 q.0 × ArenaNew m.1 n.1 q.1

  pub pointer-valid :
      (m q : H × Arena T) (p : Option ℕ) → ValidPointer m p → PointerOld m q → ValidPointer q p
  pointer-valid m q none v o = tt
  pointer-valid m q (some p) (inside, v) (o, (le, same)) = (
    omega arith,
    subst (x.Valid q.0) (sym (same p inside)) (x.valid-old m.0 q.0 (m.1.cell p) v o),
  )

  pub pointer-view :
      (m q : H × Arena T) (p : Option ℕ)
      → ValidPointer m p
      → PointerOld m q
      → view_pointer c q p ≡ view_pointer c m p
  unfolding view_pointer
  pointer-view m q none v o = refl
  pointer-view m q (some p) (inside, v) (o, (le, same)) =
      ap (λ t. some (c.view q.0 t)) (same p inside) ∙ ap some (x.view-old m.0 q.0 (m.1.cell p) v o)

  pub pointer-old : (m : H × Arena T) (p : Option ℕ) → PointerOld m (copy_pointer c m p).1
  unfolding copy_pointer
  pointer-old m none = (x.old-refl m.0, (omega arith, λ i l. refl))
  pointer-old (h, a) (some p) = (x.copy-old h (a.cell p), push-ArenaOld a (c.copy h (a.cell p)).0)

  pub pointer-new :
      (m q : H × Arena T) (p : Option ℕ)
      → ValidPointer m p
      → PointerNew m (copy_pointer c m p).1 q
      → view_pointer c q (copy_pointer c m p).0 ≡ view_pointer c m p
  unfolding view_pointer copy_pointer
  pointer-new m q none v n = refl
  pointer-new (h, a) q (some p) (inside, v) (n, fresh) =
      ap (λ t. some (c.view q.0 t))
        (fresh a.size (omega arith) (omega arith) ∙ push-last a (c.copy h (a.cell p)).0)
      ∙ ap some (x.copy-new h q.0 (a.cell p) v n)

  unfoldable pub pointer_cells : Cells (pointer c)
  pointer_cells = record {
    Old = PointerOld;
    New = PointerNew;
    Valid = ValidPointer;
    old-refl = λ m. (x.old-refl m.0, (omega arith, λ i l. refl));
    old-trans = λ m q r o p. (x.old-trans m.0 q.0 r.0 o.0 p.0, ArenaOld-trans m.1 q.1 r.1 o.1 p.1);
    new-refl = λ m n. (x.new-refl m.0 n.0, λ i l r. refl);
    new-first = λ m n o q a b e.
        (x.new-first m.0 n.0 o.0 q.0 a.0 b.0 e.0, ArenaNew-first m.1 n.1 o.1 q.1 a.1 b.1 e.1);
    new-rest =
        λ m n o q a e. (x.new-rest m.0 n.0 o.0 q.0 a.0 e.0, ArenaNew-rest m.1 n.1 o.1 q.1 a.1 e.1);
    valid-old = pointer-valid;
    view-old = pointer-view;
    copy-old = pointer-old;
    copy-new = pointer-new;
  }

  pub each-valid : (h q : H) (ts : List T) → All (x.Valid h) ts → x.Old h q → All (x.Valid q) ts
  each-valid h q [] v o = tt
  each-valid h q (t ∷ ts) (v, vs) o = (x.valid-old h q t v o, each-valid h q ts vs o)

  pub each-view :
      (h q : H) (ts : List T)
      → All (x.Valid h) ts
      → x.Old h q
      → map (c.view q) ts ≡ map (c.view h) ts
  each-view h q [] v o = refl
  each-view h q (t ∷ ts) (v, vs) o = cons_eq (x.view-old h q t v o) (each-view h q ts vs o)

  pub each-old : (h : H) (ts : List T) → x.Old h (copy_each c h ts).1
  unfolding copy_each
  each-old h [] = x.old-refl h
  each-old h (t ∷ ts) =
      x.old-trans h (c.copy h t).1 (copy_each c (c.copy h t).1 ts).1 (x.copy-old h t)
        (each-old (c.copy h t).1 ts)

  pub each-new :
      (h q : H) (ts : List T)
      → All (x.Valid h) ts
      → x.New h (copy_each c h ts).1 q
      → map (c.view q) (copy_each c h ts).0 ≡ map (c.view h) ts
  unfolding copy_each
  each-new h q [] v n = refl
  each-new h q (t ∷ ts) (v, vs) n =
      let h₁ = (c.copy h t).1 in
      let h₂ = (copy_each c h₁ ts).1 in
      cons_eq (x.copy-new h q t v (x.new-first h h₁ h₂ q (x.copy-old h t) (each-old h₁ ts) n)) (
        each-new h₁ q ts (each-valid h h₁ ts vs (x.copy-old h t))
          (x.new-rest h h₁ h₂ q (x.copy-old h t) n)
        ∙ each-view h h₁ ts vs (x.copy-old h t))

  unfoldable pub each_cells : Cells (each c)
  each_cells = record {
    Old = x.Old;
    New = x.New;
    Valid = λ h ts. All (x.Valid h) ts;
    old-refl = x.old-refl;
    old-trans = x.old-trans;
    new-refl = x.new-refl;
    new-first = x.new-first;
    new-rest = x.new-rest;
    valid-old = each-valid;
    view-old = each-view;
    copy-old = each-old;
    copy-new = each-new;
  }
