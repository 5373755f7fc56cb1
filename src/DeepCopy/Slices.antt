-- ===== src/DeepCopy/Slices.antt =====
-- A new slice is a deep copy, if its elements are copied deeply.
use mathlib.Core.List.{append_assoc}
use fyp.Common.{
  ℕ, suc, ◌+◌, ◌≤◌, ◌<◌, none, some, List, [], ◌∷◌, ◌++◌, map, ◌≡◌, ◌≢◌, refl, ap, ap₂, ◌∙◌, sym,
  subst, arith,
}
use fyp.Memory.{Ref, Types, Block, Heap, Mem, write, alloc}
use fyp.Memory.Shape.{Agree, Shape, IsDeep, pointer, each, EachLies, each-frame, each-widen}
use fyp.Memory.Deep.{write_self, write_other, write_below, write_above}
use fyp.DeepCopy.{set, copy_items, copy_slice}

abbrev length : {A : Type 0} → List A → ℕ
length [] = 0
length (x ∷ xs) = suc (length xs)

length-append_one : {A : Type 0} (xs : List A) (x : A) → length (xs ++ x ∷ []) ≡ length xs + 1
length-append_one [] x = omega arith
length-append_one (y ∷ xs) x = omega (arith, length-append_one xs x)

set-append :
    {A : Type 0} (front rest : List A) (x y : A)
    → set (front ++ x ∷ rest) (length front) y ≡ front ++ y ∷ rest
unfolding set
set-append [] rest x y = refl
set-append (z ∷ front) rest x y = ap (λ l. z ∷ l) (set-append front rest x y)

module _ {types : Types} {A V : Type 0} (s : Shape types A V) (get : Block types → List A)
    (put : List A → Block types) (get-put : (xs : List A) → get (put xs) ≡ xs) (empty : A)
    {into : A → Mem types A} (deep : IsDeep s into) where
  -- The loop has written copies of `xs` behind `front`, and nothing else of what was in use.
  record Filled (out : Ref) (front xs : List A) (g g' : Heap types) : Type 0 where
    elements : List A
    grows : g.next ≤ g'.next
    keeps : (p : Ref) → p < g.next → p ≢ out → g'.cell p ≡ g.cell p
    filled : g'.cell out ≡ put (front ++ elements)
    same : map (s.view g') elements ≡ map (s.view g) xs
    own : EachLies s g.next g'.next g' elements

  copy_items-Filled :
      (out i : ℕ) (front xs : List A) (g : Heap types)
      → i ≡ length front
      → out < g.next
      → g.cell out ≡ put (front ++ map (λ _. empty) xs)
      → EachLies s 0 out g xs
      → Filled out front xs g (copy_items get put empty into out i xs g).1
  unfolding copy_items
  copy_items-Filled out i front [] g e lt c l = record {
    elements = [];
    grows = omega arith;
    keeps = λ p q r. refl;
    filled = c;
    same = refl;
    own = tt;
  }
  copy_items-Filled out i front (x ∷ xs) g e lt c l =
      let copied = deep x g (s.widen 0 0 out g.next g x (omega arith) (omega arith) l.0) in
      let (y, g₁) = into x g in
      let block = put (set (get (g₁.cell out)) i y) in
      let g₂ = write out block g₁ in
      let front' = front ++ y ∷ [] in
      let read : get (g₁.cell out) ≡ front ++ empty ∷ map (λ _. empty) xs =
        ap get (copied.keeps out (omega arith) lt ∙ c) ∙ get-put _ in
      let grown : set (get (g₁.cell out)) i y ≡ front' ++ map (λ _. empty) xs =
        ap (λ l. set l i y) read
        ∙ rw e (set-append front (map (λ _. empty) xs) empty y)
        ∙ sym (append_assoc front (y ∷ []) (map (λ _. empty) xs)) in
      let below : Agree 0 out g₂ g = λ p q r.
        write_above 0 out out block g₁ (omega arith) p q r ∙ copied.keeps p q (omega arith) in
      let (m, u) = each-frame s 0 out g₂ g xs l.1 below in
      let rest =
        copy_items-Filled out (i + 1) front' xs g₂ (omega (arith, length-append_one front y))
          (omega (arith, copied.grows)) (write_self out block g₁ ∙ ap put grown) m in
      let g' = (copy_items get put empty into out (i + 1) xs g₂).1 in
      let (n, v) = s.frame g.next g₁.next g' g₁ y copied.own (λ p q r.
        rest.keeps p r (omega arith) ∙ write_below g.next g₁.next out block g₁ lt p q r) in
      record {
        elements = y ∷ rest.elements;
        grows = omega (arith, copied.grows, rest.grows);
        keeps = λ p q r.
            rest.keeps p (omega (arith, copied.grows)) r
            ∙ write_other out p block g₁ r
            ∙ copied.keeps p (omega arith) q;
        filled = rest.filled ∙ ap put (append_assoc front (y ∷ []) rest.elements);
        same = ap₂ ◌∷◌ (v ∙ copied.same) (rest.same ∙ u);
        own = (
          s.widen g.next g.next g₁.next g'.next g' y (omega arith) rest.grows n,
          each-widen s g₁.next g.next g'.next g'.next g' rest.elements copied.grows (omega arith)
              rest.own,
        );
      }

  pub copy_slice-IsDeep : IsDeep (pointer (each s) get) (copy_slice get put empty into)
  unfolding copy_slice
  copy_slice-IsDeep none h l = record {
    grows = omega arith;
    keeps = λ p q r. refl;
    same = refl;
    own = tt;
  }
  copy_slice-IsDeep (some p) h l =
      let xs = get (h.cell p) in
      let out = h.next in
      let block = put (map (λ _. empty) xs) in
      let h₁ = (alloc block h).1 in
      let above = write_above 0 out out block h (omega arith) in
      let (m, u) = each-frame s 0 out h₁ h xs l.2 above in
      let filled = copy_items-Filled out 0 [] xs h₁ refl (omega arith) (write_self out block h) m in
      let h' = (copy_items get put empty into out 0 xs h₁).1 in
      let back : get (h'.cell out) ≡ filled.elements = ap get filled.filled ∙ get-put _ in
      record {
        grows = omega (arith, filled.grows);
        keeps = λ q r under. filled.keeps q (omega arith) (omega arith) ∙ above q r under;
        same = ap some (ap (map (s.view h')) back ∙ filled.same ∙ u);
        own = (
          omega arith,
          omega (arith, filled.grows),
          subst (λ ys. EachLies s out h'.next h' ys) (sym back)
              (each-widen s h₁.next out h'.next h'.next h' filled.elements (omega arith)
                (omega arith) filled.own),
        );
      }
