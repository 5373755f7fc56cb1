-- ===== src/Memory/Shape.antt =====
-- Where a value lies in memory, what it stands for there, and what it takes to copy it deeply.
use fyp.Common.{ℕ, ◌≤◌, ◌<◌, List, [], ◌∷◌, map, Option, none, some, ◌≡◌, refl, ap, ap₂, arith}
use fyp.Memory.{Ref, Types, Block, Heap, Mem}

module _ {types : Types} where
  -- The two memories hold the same at the addresses from `lo` to below `hi`.
  abbrev pub Agree : ℕ → ℕ → Heap types → Heap types → Type 0
  Agree lo hi g h = (p : Ref) → lo ≤ p → p < hi → g.cell p ≡ h.cell p

-- `view h a` is what `a` stands for in `h`, and `Lies lo hi h a` says that every address that is
-- reached from `a` is one from `lo` to below `hi`. A view reads nothing but what is reached.
pub record Shape (types : Types) (A V : Type 0) : Type 1 where
  pub view : Heap types → A → V
  pub Lies : ℕ → ℕ → Heap types → A → Type 0
  pub frame :
      (lo hi : ℕ) (g h : Heap types) (a : A)
      → Lies lo hi h a
      → Agree lo hi g h
      → Lies lo hi g a × (view g a ≡ view h a)
  pub widen :
      (lo lo' hi hi' : ℕ) (h : Heap types) (a : A)
      → lo' ≤ lo
      → hi ≤ hi'
      → Lies lo hi h a
      → Lies lo' hi' h a

module _ {types : Types} {A V : Type 0} (s : Shape types A V) where
  -- The result stands for the same as the original, reaches only addresses that were free before,
  -- and what was in use before is as it was.
  pub record Copied (a : A) (h : Heap types) (out : A × Heap types) : Type 0 where
    pub grows : h.next ≤ out.1.next
    pub keeps : Agree 0 h.next out.1 h
    pub same : s.view out.1 out.0 ≡ s.view h a
    pub own : s.Lies h.next out.1.next out.1 out.0

  -- Every copy of a value that lies in the memory in use is a deep copy.
  abbrev pub IsDeep : (A → Mem types A) → Type 0
  IsDeep copy = (a : A) (h : Heap types) → s.Lies 0 h.next h a → Copied a h (copy a h)

module _ {types : Types} where
  -- A value without addresses, of which `Ok` holds.
  abbrev pub plain : {A : Type 0} → (A → Type 0) → Shape types A A
  plain Ok = record {
    view = λ h a. a;
    Lies = λ lo hi h a. Ok a;
    frame = λ lo hi g h a l e. (l, refl);
    widen = λ lo lo' hi hi' h a p q l. l;
  }

  module _ {A V B W : Type 0} (s : Shape types A V) (t : Shape types B W) where
    abbrev pub pair : Shape types (A × B) (V × W)
    pair = record {
      view = λ h x. (s.view h x.0, t.view h x.1);
      Lies = λ lo hi h x. s.Lies lo hi h x.0 × t.Lies lo hi h x.1;
      frame = λ lo hi g h x l e.
          let (m, p) = s.frame lo hi g h x.0 l.0 e in
          let (n, q) = t.frame lo hi g h x.1 l.1 e in ((m, n), ap₂ (λ a b. (a, b)) p q);
      widen = λ lo lo' hi hi' h x p q l.
          (s.widen lo lo' hi hi' h x.0 p q l.0, t.widen lo lo' hi hi' h x.1 p q l.1);
    }

  -- A pointer, or a map; `get` reads the cell.
  module _ {A V : Type 0} (s : Shape types A V) (get : Block types → A) where
    abbrev pub pointer_view : Heap types → Option Ref → Option V
    pointer_view h none = none
    pointer_view h (some p) = some (s.view h (get (h.cell p)))

    abbrev pub PointerLies : ℕ → ℕ → Heap types → Option Ref → Type 0
    PointerLies lo hi h none = Unit {0}
    PointerLies lo hi h (some p) = (lo ≤ p) × (p < hi) × s.Lies lo hi h (get (h.cell p))

    pub pointer-frame :
        (lo hi : ℕ) (g h : Heap types) (x : Option Ref)
        → PointerLies lo hi h x
        → Agree lo hi g h
        → PointerLies lo hi g x × (pointer_view g x ≡ pointer_view h x)
    pointer-frame lo hi g h none l e = (tt, refl)
    pointer-frame lo hi g h (some p) l e =
        let (m, q) = s.frame lo hi g h (get (h.cell p)) l.2 e in
        rw (e p l.0 l.1) ((l.0, l.1, m), ap some q)

    pub pointer-widen :
        (lo lo' hi hi' : ℕ) (h : Heap types) (x : Option Ref)
        → lo' ≤ lo
        → hi ≤ hi'
        → PointerLies lo hi h x
        → PointerLies lo' hi' h x
    pointer-widen lo lo' hi hi' h none p q l = tt
    pointer-widen lo lo' hi hi' h (some a) p q l =
        (omega arith, omega arith, s.widen lo lo' hi hi' h (get (h.cell a)) p q l.2)

    abbrev pub pointer : Shape types (Option Ref) (Option V)
    pointer = record {
      view = pointer_view;
      Lies = PointerLies;
      frame = pointer-frame;
      widen = pointer-widen;
    }

  -- The elements of a slice.
  module _ {A V : Type 0} (s : Shape types A V) where
    abbrev pub EachLies : ℕ → ℕ → Heap types → List A → Type 0
    EachLies lo hi h [] = Unit {0}
    EachLies lo hi h (x ∷ xs) = s.Lies lo hi h x × EachLies lo hi h xs

    pub each-frame :
        (lo hi : ℕ) (g h : Heap types) (xs : List A)
        → EachLies lo hi h xs
        → Agree lo hi g h
        → EachLies lo hi g xs × (map (s.view g) xs ≡ map (s.view h) xs)
    each-frame lo hi g h [] l e = (tt, refl)
    each-frame lo hi g h (x ∷ xs) l e =
        let (m, p) = s.frame lo hi g h x l.0 e in
        let (n, q) = each-frame lo hi g h xs l.1 e in ((m, n), ap₂ ◌∷◌ p q)

    pub each-widen :
        (lo lo' hi hi' : ℕ) (h : Heap types) (xs : List A)
        → lo' ≤ lo
        → hi ≤ hi'
        → EachLies lo hi h xs
        → EachLies lo' hi' h xs
    each-widen lo lo' hi hi' h [] p q l = tt
    each-widen lo lo' hi hi' h (x ∷ xs) p q l =
        (s.widen lo lo' hi hi' h x p q l.0, each-widen lo lo' hi hi' h xs p q l.1)

    abbrev pub each : Shape types (List A) (List V)
    each = record {
      view = λ h xs. map (s.view h) xs;
      Lies = EachLies;
      frame = each-frame;
      widen = each-widen;
    }

    -- A struct, by the part of it that holds addresses; `f` builds what it stands for.
    module _ {S W : Type 0} (part : S → A) (f : S → V → W) where
      abbrev pub via : Shape types S W
      via = record {
        view = λ h x. f x (s.view h (part x));
        Lies = λ lo hi h x. s.Lies lo hi h (part x);
        frame = λ lo hi g h x l e. let (m, p) = s.frame lo hi g h (part x) l e in (m, ap (f x) p);
        widen = λ lo lo' hi hi' h x p q l. s.widen lo lo' hi hi' h (part x) p q l;
      }
