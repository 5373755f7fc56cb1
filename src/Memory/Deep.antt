-- ===== src/Memory/Deep.antt =====
-- Deep copies of composed values: a copy is deep if those of its parts are.
use fyp.Common.{ℕ, ◌≤◌, ◌<◌, ◌≡◌, ◌≢◌, refl, ap, ap₂, ◌∙◌, arith}
use fyp.Memory.{Ref, Types, Block, Heap, Mem, write, pure}
use fyp.Memory.Shape.{Agree, Shape, IsDeep, plain, pair, via}

module _ {types : Types} where
  pub write_self : (p : Ref) (b : Block types) (h : Heap types) → (write p b h).cell p ≡ b
  write_self p b h = ground arith

  pub write_other :
      (p q : Ref) (b : Block types) (h : Heap types) → q ≢ p → (write p b h).cell q ≡ h.cell q
  write_other p q b h ne = ground arith

  -- A write below or above the addresses.
  pub write_below :
      (lo hi p : ℕ) (b : Block types) (h : Heap types) → p < lo → Agree lo hi (write p b h) h
  write_below lo hi p b h lt q le under = ground arith

  pub write_above :
      (lo hi p : ℕ) (b : Block types) (h : Heap types) → hi ≤ p → Agree lo hi (write p b h) h
  write_above lo hi p b h le q from under = ground arith

  pub pure-IsDeep : {A : Type 0} (Ok : A → Type 0) → IsDeep (plain {types = types} Ok) pure
  pure-IsDeep Ok a h l = record { grows = omega arith; keeps = λ p q r. refl; same = refl; own = l }

  module _ {A V B W : Type 0} (s : Shape types A V) (t : Shape types B W) {ca : A → Mem types A}
      {cb : B → Mem types B} where
    pub pair-IsDeep :
        IsDeep s ca
        → IsDeep t cb
        → IsDeep
            (pair s t)
            (λ x h. let (a, h₁) = ca x.0 h in let (b, h₂) = cb x.1 h₁ in ((a, b), h₂))
    pair-IsDeep da db x h l =
        let (a, h₁) = ca x.0 h in
        let (b, h₂) = cb x.1 h₁ in
        let first = da x.0 h l.0 in
        let (m, u) = t.frame 0 h.next h₁ h x.1 l.1 first.keeps in
        let second = db x.1 h₁ (t.widen 0 0 h.next h₁.next h₁ x.1 (omega arith) first.grows m) in
        let (n, v) =
          s.frame h.next h₁.next h₂ h₁ a first.own (λ p q r. second.keeps p (omega arith) r) in
        record {
          grows = omega (arith, first.grows, second.grows);
          keeps = λ p q r. second.keeps p q (omega (arith, first.grows, r)) ∙ first.keeps p q r;
          same = ap₂ (λ x y. (x, y)) (v ∙ first.same) (second.same ∙ u);
          own = (
            s.widen h.next h.next h₁.next h₂.next h₂ a (omega arith) second.grows n,
            t.widen h₁.next h.next h₂.next h₂.next h₂ b first.grows (omega arith) second.own,
          );
        }

  module _ {A V S W : Type 0} (s : Shape types A V) (part : S → A) (f : S → V → W) (put : S → A → S)
      (part-put : (x : S) (a : A) → part (put x a) ≡ a)
      (f-put : (x : S) (a : A) (v : V) → f (put x a) v ≡ f x v) {c : A → Mem types A} where
    pub via-IsDeep :
        IsDeep s c → IsDeep (via s part f) (λ x h. let (a, h') = c (part x) h in (put x a, h'))
    via-IsDeep d x h l =
        let (a, h') = c (part x) h in
        let copied = d (part x) h l in
        record {
          grows = copied.grows;
          keeps = copied.keeps;
          same = f-put x a _ ∙ ap (λ y. f x (s.view h' y)) (part-put x a) ∙ ap (f x) copied.same;
          own = rw (part-put x a) copied.own;
        }
