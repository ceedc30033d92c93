-- ===== src/Permissions/Text.antt =====
-- Texts cut at the first colon.
use Prim.Native.Char.{Char, code}
use Prim.Native.String.{String, [], ◌∷◌, ◌++◌}
use text.Mathlib.TextEquality.{Char-path}
use text.Mathlib.TextLemmas.{nil-append, cons-append}
use coworker.Prelude.{
  ◌≡◌, refl, sym, subst, ap, ◌∙◌, false, Option, none, some, arith, eqb, Bool-cases, inl, inr,
}
use coworker.Permissions.{cut_colon, has_colon, prepend}

colon_cons : (b : String) → ":" ++ b ≡ ":" ∷ b
colon_cons b = cons-append ":" "" b ∙ ap (λ s. ":" ∷ s) (nil-append b)

pub cut_colon-none : (s : String) → has_colon s ≡ false → cut_colon s ≡ none
unfolding cut_colon has_colon
cut_colon-none [] h = refl
cut_colon-none (c ∷ s) h = ground (arith, cut_colon-none s)

cut_colon_here : (b : String) → cut_colon (":" ++ b) ≡ some ("", b)
unfolding cut_colon
cut_colon_here b = ap cut_colon (colon_cons b)

pub cut_colon-append :
    (a b : String) → has_colon a ≡ false → cut_colon (a ++ (":" ++ b)) ≡ some (a, b)
unfolding cut_colon has_colon
cut_colon-append [] b h = ap cut_colon (nil-append (":" ++ b)) ∙ cut_colon_here b
cut_colon-append (c ∷ a) b h =
    ap cut_colon (cons-append c a (":" ++ b)) ∙ ground (arith, cut_colon-append a b)

CutFits : Option (String × String) → String → Type 0
CutFits none s = Unit
CutFits (some (a, b)) s = (s ≡ a ++ (":" ++ b)) × (has_colon a ≡ false)

prepend-CutFits :
    (c : Char) (s : String) (o : Option (String × String))
    → eqb (code c) b':' ≡ false
    → CutFits o s
    → CutFits (prepend c o) (c ∷ s)
unfolding CutFits has_colon
prepend-CutFits c s none h k = tt
prepend-CutFits c s (some (a, b)) h (p, q) =
    (ap (λ t. c ∷ t) p ∙ sym (cons-append c a (":" ++ b)), ground arith)

cut_colon-CutFits : (s : String) → CutFits (cut_colon s) s
unfolding cut_colon CutFits has_colon
cut_colon-CutFits [] = tt
cut_colon-CutFits (c ∷ s) = elim (Bool-cases (eqb (code c) b':')) [
  | inl e ↦ rw e (
    ap (λ d. d ∷ s) (Char-path c ":" (ground arith)) ∙ sym (nil-append (":" ++ s) ∙ colon_cons s),
    refl,
  )
  | inr e ↦ rw e (prepend-CutFits c s (cut_colon s) e (cut_colon-CutFits s))
]

-- What is cut, is put together again by a colon.
pub cut_colon-some :
    (s a b : String) → cut_colon s ≡ some (a, b) → (s ≡ a ++ (":" ++ b)) × (has_colon a ≡ false)
unfolding CutFits
cut_colon-some s a b h = subst (λ o. CutFits o s) h (cut_colon-CutFits s)
