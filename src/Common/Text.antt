-- ===== src/Common/Text.antt =====
-- Texts as lists of code points, for the proofs that look inside a text, and where a text splits.
use Prim.Native.Nat.{ℕ}
use Prim.Native.Char.{code}
use Prim.Native.String.{String, ◌++◌ as ◌++ˢ◌}
use mathlib.Core.Path.{◌≡◌, refl, ap, ap₂, ◌∙◌}
use mathlib.Core.Logic.{◌≢◌}
use mathlib.Core.List.{List, [], ◌∷◌, ◌++◌}
use text.Mathlib.TextEquality.{Char-path}
use text.Mathlib.TextLemmas.{nil-append, cons-append}

abbrev pub codes : String → List ℕ
codes String.[] = []
codes (String.◌∷◌ c s) = code c ∷ codes s

pub codes-append : (s t : String) → codes (s ++ˢ t) ≡ codes s ++ codes t
codes-append String.[] t = ap codes (nil-append t)
codes-append (String.◌∷◌ c s) t =
    ap codes (cons-append c s t) ∙ ap (λ l. code c ∷ l) (codes-append s t)

pub codes-injective : (s t : String) → codes s ≡ codes t → s ≡ t
codes-injective String.[] String.[] h = refl
codes-injective String.[] (String.◌∷◌ d t) h = cc
codes-injective (String.◌∷◌ c s) String.[] h = cc
codes-injective (String.◌∷◌ c s) (String.◌∷◌ d t) h =
    ap₂ String.◌∷◌ (Char-path c d (cc)) (codes-injective s t (cc))

-- No element of the list is `a`.
abbrev pub Lacks : ℕ → List ℕ → Type 0
Lacks a [] = Unit {0}
Lacks a (x ∷ xs) = (x ≢ a) × Lacks a xs

pub Lacks-append : (a : ℕ) (xs ys : List ℕ) → Lacks a xs → Lacks a ys → Lacks a (xs ++ ys)
Lacks-append a [] ys h k = k
Lacks-append a (x ∷ xs) ys h k = (h.0, Lacks-append a xs ys h.1 k)

Lacks-middle : (a : ℕ) (xs ys : List ℕ) → ¬ Lacks a (xs ++ a ∷ ys)
Lacks-middle a [] ys h = h.0 refl
Lacks-middle a (x ∷ xs) ys h = Lacks-middle a xs ys h.1

-- The last place of the separator splits a list in one way.
pub split_last :
    (a : ℕ) (xs ys : List ℕ) {ds es : List ℕ}
    → Lacks a ds
    → Lacks a es
    → xs ++ a ∷ ds ≡ ys ++ a ∷ es
    → (xs ≡ ys) × (ds ≡ es)
split_last a [] [] hd he p = (refl, cc)
split_last a [] (y ∷ ys) {ds} {es} hd he p =
    let q : ds ≡ ys ++ a ∷ es = cc in absurd (Lacks-middle a ys es (rw q at hd))
split_last a (x ∷ xs) [] {ds} {es} hd he p =
    let q : es ≡ xs ++ a ∷ ds = cc in absurd (Lacks-middle a xs ds (rw q at he))
split_last a (x ∷ xs) (y ∷ ys) hd he p =
    let head : x ≡ y = cc in let (q, r) = split_last a xs ys hd he (cc) in (ap₂ ◌∷◌ head q, r)
