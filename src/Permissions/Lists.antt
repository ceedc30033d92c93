-- ===== src/Permissions/Lists.antt =====
-- The lists of permissions of a role, parsed before their use or at each test.
use mathlib.Core.List.{cons≢nil}
use coworker.Prelude.{String, ◌≡◌, refl, subst, ap, List, [], ◌∷◌, Result, ok, err, ◌↔◌}
use coworker.Permissions.{
  Permission, PermissionError, parse_permission, parse_each, sort_out, joined, parse_permissions,
}

unfoldable pub ParsedTo : List String → List Permission → Type 0
ParsedTo [] [] = Unit
ParsedTo [] (_ ∷ _) = ⊥
ParsedTo (_ ∷ _) [] = ⊥
ParsedTo (s ∷ ss) (p ∷ ps) = (parse_permission s ≡ ok p) × ParsedTo ss ps

parse_each_ok :
    (ss : List String) (ps : List Permission) → ParsedTo ss ps → parse_each ss ≡ (ps, [])
unfolding parse_each ParsedTo
parse_each_ok [] [] h = refl
parse_each_ok [] (_ ∷ _) h = absurd h
parse_each_ok (_ ∷ _) [] h = absurd h
parse_each_ok (s ∷ ss) (p ∷ ps) (h, k) = rw (h, parse_each_ok ss ps k) refl

sort_out_ok :
    (r : Result PermissionError Permission) (acc : List Permission × List PermissionError)
    (ps : List Permission)
    → sort_out r acc ≡ (ps, [])
    → (p : Permission) × (qs : List Permission) × (r ≡ ok p) × (acc ≡ (qs, [])) × (p ∷ qs ≡ ps)
sort_out_ok (ok p) (out, errs) ps h = (p, out, refl, λ i. (out, (h i).1), λ i. (h i).0)
sort_out_ok (err e) (out, errs) ps h = absurd (cons≢nil (λ i. (h i).1))

joined_ok :
    (acc : List Permission × List PermissionError) (ps : List Permission)
    → joined acc ≡ ok ps
    → acc ≡ (ps, [])
joined_ok (out, []) ps h = cc
joined_ok (out, e ∷ errs) ps h = absurd (cc)

parse_each-ParsedTo :
    (ss : List String) (ps : List Permission) → parse_each ss ≡ (ps, []) → ParsedTo ss ps
unfolding parse_each ParsedTo
parse_each-ParsedTo [] [] h = tt
parse_each-ParsedTo [] (_ ∷ _) h = absurd (cc)
parse_each-ParsedTo (s ∷ ss) ps h =
    let (p, qs, e, k, l) = sort_out_ok _ _ ps h in
    subst (ParsedTo (s ∷ ss)) l (e, parse_each-ParsedTo ss qs k)

-- The list is accepted if and only if each entry is, and then as the permissions of the entries, in
-- their order.
pub parse_permissions-ParsedTo :
    (ss : List String) (ps : List Permission) → parse_permissions ss ≡ ok ps ↔ ParsedTo ss ps
unfolding parse_permissions
parse_permissions-ParsedTo ss ps =
    (λ h. parse_each-ParsedTo ss ps (joined_ok _ ps h), λ h. ap joined (parse_each_ok ss ps h))
