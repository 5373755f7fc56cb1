-- ===== src/DeepCopy.antt =====
-- operator/api/v1alpha1/zz_generated.deepcopy.go: the forms that its functions are made of. The
-- methods of metav1's types, which they call, are parameters.
pub mod Structs
pub mod Objects
pub mod Pointers
pub mod Slices
pub mod Maps
pub mod Views
pub mod Deep
pub mod Independence
use fyp.Common.{
  ℕ, zero, suc, ◌+◌, String, Option, none, some, List, [], ◌∷◌, map, ◌==ˢ◌, if◌then◌else◌,
}
use fyp.Memory.{Ref, Types, Block, Mem, alloc, load, store, ◌>>=◌, ◌>>◌, pure, int32, text_map}
use fyp.Memory.Cells.{int32_at, text_map_at}

-- DeepCopyInto of metav1.ObjectMeta, ListMeta and Condition, as the value that they write, and
-- DeepCopy of a *metav1.Time that is not nil.
pub record MetaCopies (types : Types) : Type 0 where
  pub object_meta : types.ObjectMeta → Mem types types.ObjectMeta
  pub list_meta : types.ListMeta → Mem types types.ListMeta
  pub condition : types.Condition → Mem types types.Condition
  pub time : Ref → Mem types Ref

-- m[key] = val
pub put_entry : String → String → List (String × String) → List (String × String)
put_entry key val [] = (key, val) ∷ []
put_entry key val ((k, v) ∷ m) = if k ==ˢ key then (key, val) ∷ m else (k, v) ∷ put_entry key val m

-- xs[i] = x
pub set : {A : Type 0} → List A → ℕ → A → List A
set [] i x = []
set (y ∷ ys) zero x = x ∷ ys
set (y ∷ ys) (suc i) x = y ∷ set ys i x

module _ {types : Types} where
  -- `for key, val := range *in`. Go leaves the order open; here it is that of the entries.
  pub put_entries : Ref → List (String × String) → Mem types (Unit {0})
  unfolding put_entry
  put_entries out [] = pure tt
  put_entries out ((key, val) ∷ m) = do
    b ← load out
    store out (text_map (put_entry key val (text_map_at b)))
    put_entries out m

  -- A map is copied unless it is nil, which `*out = *in` has copied.
  unfoldable pub copy_map : Option Ref → Mem types (Option Ref)
  unfolding put_entries
  copy_map none = pure none
  copy_map (some p) = do
    b ← load p
    out ← alloc (text_map [])
    put_entries out (text_map_at b)
    pure (some out)

  -- *out = new(int32); **out = **in
  unfoldable pub copy_int32 : Option Ref → Mem types (Option Ref)
  copy_int32 none = pure none
  copy_int32 (some p) = do
    out ← alloc (int32 0)
    b ← load p
    store out (int32 (int32_at b))
    pure (some out)

  module _ {A : Type 0} (get : Block types → List A) (put : List A → Block types) (empty : A)
      (into : A → Mem types A) where
    -- `for i := range *in`, from the index `i` on. The elements are read at the start: what the loop
    -- writes is not what it reads.
    pub copy_items : Ref → ℕ → List A → Mem types (Unit {0})
    unfolding set
    copy_items out i [] = pure tt
    copy_items out i (x ∷ xs) = do
      e ← into x
      b ← load out
      store out (put (set (get b) i e))
      copy_items out (i + 1) xs

    -- A slice is copied unless it is nil: make, and then the loop.
    unfoldable pub copy_slice : Option Ref → Mem types (Option Ref)
    unfolding copy_items
    copy_slice none = pure none
    copy_slice (some p) = do
      b ← load p
      out ← alloc (put (map (λ _. empty) (get b)))
      copy_items out 0 (get b)
      pure (some out)

  module _ {A : Type 0} (get : Block types → A) (put : A → Block types) (empty : A)
      (into : A → Mem types A) where
    -- DeepCopy: nil for nil, else `out := new(T); in.DeepCopyInto(out); return out`.
    unfoldable pub deep_copy : Option Ref → Mem types (Option Ref)
    deep_copy none = pure none
    deep_copy (some p) = do
      out ← alloc (put empty)
      b ← load p
      v ← into (get b)
      store out (put v)
      pure (some out)
