-- ===== src/DeepCopy/Pointers.antt =====
-- A new struct behind a pointer is a deep copy, if the struct is copied deeply.
use fyp.Common.{Option, none, some, ◌≡◌, refl, ap, ◌∙◌, sym, subst, arith}
use fyp.Memory.{Ref, Types, Block, Heap, Mem, write, alloc, pure, int32}
use fyp.Memory.Cells.{int32_at}
use fyp.Memory.Shape.{Shape, IsDeep, plain, pointer}
use fyp.Memory.Deep.{write_self, write_below, write_above, pure-IsDeep}
use fyp.DeepCopy.{deep_copy, copy_int32}

module _ {types : Types} {A V : Type 0} (s : Shape types A V) (get : Block types → A)
    (put : A → Block types) (get-put : (a : A) → get (put a) ≡ a) (empty : A)
    {into : A → Mem types A} (deep : IsDeep s into) where
  pub deep_copy-IsDeep : IsDeep (pointer s get) (deep_copy get put empty into)
  unfolding deep_copy
  deep_copy-IsDeep none h l = record {
    grows = omega arith;
    keeps = λ p q r. refl;
    same = refl;
    own = tt;
  }
  deep_copy-IsDeep (some p) h l =
      let (out, h₁) = alloc (put empty) h in
      let old : h₁.cell p ≡ h.cell p =
        write_above 0 h.next h.next (put empty) h (omega arith) p l.0 l.1 in
      let (m, u) =
        s.frame 0 h.next h₁ h (get (h.cell p)) l.2
          (write_above 0 h.next h.next (put empty) h (omega arith)) in
      let copied =
        deep (get (h₁.cell p)) h₁
          (rw old (s.widen 0 0 h.next h₁.next h₁ (get (h.cell p)) (omega arith) (omega arith) m)) in
      let (v, h₂) = into (get (h₁.cell p)) h₁ in
      let (n, w) =
        s.frame h₁.next h₂.next (write out (put v) h₂) h₂ v copied.own
          (write_below h₁.next h₂.next out (put v) h₂ (omega arith)) in
      let h₃ = write out (put v) h₂ in
      let back : get (h₃.cell out) ≡ v = ap get (write_self out (put v) h₂) ∙ get-put v in
      record {
        grows = omega (arith, copied.grows);
        keeps = λ q r under.
            write_above 0 h.next out (put v) h₂ (omega arith) q r under
            ∙ copied.keeps q r (omega arith)
            ∙ write_above 0 h.next h.next (put empty) h (omega arith) q r under;
        same =
            ap some (ap (s.view h₃) back ∙ w ∙ copied.same ∙ ap (λ b. s.view h₁ (get b)) old ∙ u);
        own = (
          omega arith,
          omega (arith, copied.grows),
          subst (λ a. s.Lies out h₂.next h₃ a) (sym back)
              (s.widen h₁.next out h₂.next h₂.next h₃ v (omega arith) (omega arith) n),
        );
      }

-- `*out = new(int32); **out = **in` is the same as a new struct.
copy_int32_lem :
    {types : Types} (x : Option Ref) (h : Heap types)
    → copy_int32 x h ≡ deep_copy int32_at int32 0 pure x h
unfolding copy_int32 deep_copy
copy_int32_lem none h = refl
copy_int32_lem (some p) h = refl

pub copy_int32-IsDeep :
    {types : Types} → IsDeep (pointer (plain {types = types} (λ n. Unit {0})) int32_at) copy_int32
copy_int32-IsDeep x h l = rw (copy_int32_lem x h) (
    deep_copy-IsDeep (plain (λ n. Unit {0})) int32_at int32 (λ n. refl) 0
      (pure-IsDeep (λ n. Unit {0})) x h l)
