-- ===== src/Permissions/RoundTrip.antt =====
-- The texts that ParsePermission accepts, and what it makes of them.
use Prim.Native.String.{String, [], ◌∷◌, ◌++◌}
use text.Mathlib.TextLemmas.{cons-append, cons≢nil}
use mathlib.Core.List.{List, [], ◌∷◌}
use coworker.Prelude.{
  ◌≡◌, refl, sym, subst, ap, ◌∙◌, true, false, not, Option, none, some, arith, All, ◌==◌, eq_iff,
  if◌then◌else◌, Bool-cases, inl, inr, ◌⊎◌, ok,
}
use coworker.Permissions.{
  Permission, valid_permission_kinds, kinds_with_subject, holds, cut_colon, has_colon,
  kind_and_subject, check_permission, parse_permission,
}
use coworker.Permissions.Text.{cut_colon-none, cut_colon-append, cut_colon-some}

-- The form in which a role's file writes a permission.
unfoldable pub permission_text : String → String → String
permission_text kind subject = if subject == "" then kind else kind ++ (":" ++ subject)

unfoldable pub IsPermission : String → String → Type 0
IsPermission kind subject =
    (holds valid_permission_kinds kind ≡ true)
    × (holds kinds_with_subject kind ≡ not (subject == ""))
    × (has_colon subject ≡ false)

-- What every kind of a set satisfies, a kind that the set holds satisfies.
holds-All :
    (P : String → Type 0) (kinds : List String) (kind : String)
    → All P kinds
    → holds kinds kind ≡ true
    → P kind
unfolding holds
holds-All P [] kind ps h = absurd (cc)
holds-All P (k ∷ kinds) kind (p, ps) h = elim (Bool-cases (k == kind)) [
  | inl e ↦ subst P ((eq_iff k kind).0 e) p
  | inr e ↦ holds-All P kinds kind ps (ground arith)
]

IsName : String → Type 0
IsName kind = (has_colon kind ≡ false) × ((kind == "") ≡ false)

holds-IsName : (kind : String) → holds valid_permission_kinds kind ≡ true → IsName kind
unfolding IsName has_colon
holds-IsName kind h =
    let name : (false ≡ false) × (false ≡ false) = (refl, refl) in
    holds-All IsName valid_permission_kinds kind
      (name, (name, (name, (name, (name, (name, (name, (name, tt)))))))) h

check_permission_ok :
    (s kind subject : String)
    → IsPermission kind subject
    → check_permission s (kind, subject) ≡ ok (record { kind = kind; subject = subject; raw = s })
unfolding check_permission IsPermission
check_permission_ok s kind subject (v, n, c) = ground (arith, v, n, c)

check_permission-IsPermission :
    (s kind subject : String) (p : Permission)
    → check_permission s (kind, subject) ≡ ok p
    → (p ≡ record { kind = kind; subject = subject; raw = s }) × IsPermission kind subject
unfolding check_permission IsPermission
check_permission-IsPermission s kind subject p h = ground arith

append_nonempty : (a b : String) → (a == "") ≡ false → ((a ++ b) == "") ≡ false
append_nonempty [] b h = absurd (cc)
append_nonempty (c ∷ a) b h = elim (Bool-cases (((c ∷ a) ++ b) == "")) [
  | inl e ↦ absurd (cons≢nil (sym (cons-append c a b) ∙ (eq_iff _ _).0 e))
  | inr e ↦ e
]

-- A text that is cut into a kind and a subject that fit is accepted.
parse_permission_of_parts :
    (s kind subject : String)
    → kind_and_subject s (cut_colon s) ≡ (kind, subject)
    → (s == "") ≡ false
    → IsPermission kind subject
    → parse_permission s ≡ ok (record { kind = kind; subject = subject; raw = s })
unfolding parse_permission
parse_permission_of_parts s kind subject h e p = rw (h, e) (check_permission_ok s kind subject p)

-- The text of a permission of a known kind, with a subject if and only if its kind takes one and no
-- colon in it, is parsed to that kind and subject.
pub parse_permission-text :
    (kind subject : String)
    → IsPermission kind subject
    → parse_permission (permission_text kind subject)
      ≡ ok (record { kind = kind; subject = subject; raw = permission_text kind subject })
unfolding permission_text IsPermission IsName
parse_permission-text kind subject (v, n, c) =
    let (colon, name) = holds-IsName kind v in
    elim (Bool-cases (subject == "")) [
      | inl e ↦ rw e (
          parse_permission_of_parts kind kind subject
            (ap (kind_and_subject kind) (cut_colon-none kind colon)
              ∙ ap (λ t. (kind, t)) (sym ((eq_iff subject "").0 e)))
            name (v, n, c))
      | inr e ↦ rw e (
          parse_permission_of_parts (kind ++ (":" ++ subject)) kind subject
            (ap (kind_and_subject _) (cut_colon-append kind subject colon))
            (append_nonempty kind _ name) (v, n, c))
    ]

-- What the tests say of an accepted text and of the parts that it was cut into.
parse_permission_parts :
    (s : String) (p : Permission)
    → parse_permission s ≡ ok p
    → let parts = kind_and_subject s (cut_colon s) in
      (p ≡ record { kind = parts.0; subject = parts.1; raw = s }) × IsPermission parts.0 parts.1
unfolding parse_permission
parse_permission_parts s p h = elim (Bool-cases (s == "")) [
  | inl e ↦ absurd (cc)
  | inr e ↦ check_permission-IsPermission s _ _ p (ground arith)
]

-- How an accepted text relates to its permission.
Spelled : String → Permission → Type 0
Spelled s p = (s ≡ permission_text p.kind p.subject) ⊎ ((p.subject ≡ "") × (s ≡ p.kind ++ ":"))

Spelled-of_cut :
    (s : String) (o : Option (String × String))
    → cut_colon s ≡ o
    → Spelled s
        (record { kind = (kind_and_subject s o).0; subject = (kind_and_subject s o).1; raw = s })
unfolding Spelled permission_text
Spelled-of_cut s none h = inl refl
Spelled-of_cut s (some (a, b)) h =
    let (e, _) = cut_colon-some s a b h in
    elim (Bool-cases (b == "")) [
      | inl k ↦ inr ((eq_iff b "").0 k, e ∙ ap (λ t. a ++ (":" ++ t)) ((eq_iff b "").0 k))
      | inr k ↦ inl (rw k e)
    ]

-- Whatever text is accepted, the permission keeps it as `raw`, has a known kind, a subject if and
-- only if its kind takes one, and no colon in the subject; the text is that of the permission, or
-- its kind and a colon where the kind takes no subject.
pub parse_permission-IsPermission :
    (s : String) (p : Permission)
    → parse_permission s ≡ ok p
    → (p.raw ≡ s)
      × IsPermission p.kind p.subject
      × ((s ≡ permission_text p.kind p.subject) ⊎ ((p.subject ≡ "") × (s ≡ p.kind ++ ":")))
unfolding Spelled
parse_permission-IsPermission s p h =
    let (e, k) = parse_permission_parts s p h in rw e (refl, k, Spelled-of_cut s (cut_colon s) refl)
