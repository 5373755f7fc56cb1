-- ===== src/DeepCopy/Maps.antt =====
-- A new map is a deep copy. The entries of a map have different keys.
use mathlib.Core.List.{append_assoc, append-nil}
use fyp.Common.{
  String, none, some, List, [], ◌∷◌, ◌++◌, eq_iff, ◌≡◌, ◌≢◌, refl, ap, ◌∙◌, sym, subst, arith,
}
use fyp.Memory.{Ref, Types, Heap, write, alloc, text_map}
use fyp.Memory.Cells.{text_map_at}
use fyp.Memory.Shape.{IsDeep, plain, pointer}
use fyp.Memory.Deep.{write_self, write_other, write_above}
use fyp.DeepCopy.{put_entry, put_entries, copy_map}

abbrev pub LacksKey : String → List (String × String) → Type 0
LacksKey key [] = Unit {0}
LacksKey key ((k, v) ∷ m) = (k ≢ key) × LacksKey key m

abbrev pub UniqueKeys : List (String × String) → Type 0
UniqueKeys [] = Unit {0}
UniqueKeys ((k, v) ∷ m) = LacksKey k m × UniqueKeys m

put_entry-append :
    (key val : String) (m : List (String × String))
    → LacksKey key m
    → put_entry key val m ≡ m ++ (key, val) ∷ []
unfolding put_entry
put_entry-append key val [] l = refl
put_entry-append key val ((k, v) ∷ m) l = ground (arith, eq_iff k key, put_entry-append key val m)

LacksKey-middle :
    (k key val : String) (front m : List (String × String))
    → LacksKey k (front ++ (key, val) ∷ m)
    → key ≢ k
LacksKey-middle k key val [] m l = l.0
LacksKey-middle k key val ((j, w) ∷ front) m l = LacksKey-middle k key val front m l.1

UniqueKeys-front :
    (key val : String) (front m : List (String × String))
    → UniqueKeys (front ++ (key, val) ∷ m)
    → LacksKey key front
UniqueKeys-front key val [] m u = tt
UniqueKeys-front key val ((k, v) ∷ front) m u =
    (λ e. LacksKey-middle k key val front m u.0 (sym e), UniqueKeys-front key val front m u.1)

module _ {types : Types} where
  -- The loop has put the entries of `m` behind those of `front`, and written nothing else.
  record Put (out : Ref) (front m : List (String × String)) (g g' : Heap types) : Type 0 where
    next : g'.next ≡ g.next
    keeps : (p : Ref) → p ≢ out → g'.cell p ≡ g.cell p
    filled : g'.cell out ≡ text_map (front ++ m)

  put_entries-Put :
      (out : Ref) (front m : List (String × String)) (g : Heap types)
      → g.cell out ≡ text_map front
      → UniqueKeys (front ++ m)
      → Put out front m g (put_entries out m g).1
  unfolding put_entries
  put_entries-Put out front [] g c u = record {
    next = refl;
    keeps = λ p n. refl;
    filled = c ∙ ap text_map (sym (append-nil front));
  }
  put_entries-Put out front ((key, val) ∷ m) g c u =
      let block = text_map (put_entry key val (text_map_at (g.cell out))) in
      let g₁ = write out block g in
      let grown : put_entry key val (text_map_at (g.cell out)) ≡ front ++ (key, val) ∷ [] =
        ap (λ b. put_entry key val (text_map_at b)) c
        ∙ put_entry-append key val front (UniqueKeys-front key val front m u) in
      let shift = append_assoc front ((key, val) ∷ []) m in
      let rest =
        put_entries-Put out (front ++ (key, val) ∷ []) m g₁
          (write_self out block g ∙ ap text_map grown) (subst UniqueKeys (sym shift) u) in
      record {
        next = rest.next;
        keeps = λ p n. rest.keeps p n ∙ write_other out p block g n;
        filled = rest.filled ∙ ap text_map shift;
      }

  pub copy_map-IsDeep : IsDeep (pointer (plain {types = types} UniqueKeys) text_map_at) copy_map
  unfolding copy_map
  copy_map-IsDeep none h l = record {
    grows = omega arith;
    keeps = λ p q r. refl;
    same = refl;
    own = tt;
  }
  copy_map-IsDeep (some p) h l =
      let m = text_map_at (h.cell p) in
      let out = h.next in
      let h₁ = (alloc (text_map []) h).1 in
      let done = put_entries-Put out [] m h₁ (write_self out (text_map []) h) l.2 in
      let h' = (put_entries out m h₁).1 in
      let back : text_map_at (h'.cell out) ≡ m = ap text_map_at done.filled in
      record {
        grows = omega (arith, done.next);
        keeps = λ q r under.
            done.keeps q (omega arith)
            ∙ write_above 0 out out (text_map []) h (omega arith) q r under;
        same = ap some back;
        own = (omega arith, omega (arith, done.next), subst UniqueKeys (sym back) l.2);
      }
