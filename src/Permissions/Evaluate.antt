-- ===== src/Permissions/Evaluate.antt =====
-- The decision on an action, by the entries of a role's three lists.
use mathlib.Core.List.{Memᴰ}
use coworker.Prelude.{
  String, ◌≡◌, refl, sym, if_same, ◌↔◌, Bool, true, false, List, [], ◌∷◌, arith, Bool-cases, inl,
  inr, ok, err, Result,
}
use coworker.Permissions.{
  Permission, PermissionDecision, PermissionError, allow, hard_deny, requires_human, undeclared,
  RolePermissions, parse_permission, match_permission, matches_entry, matches_any, evaluate_action,
}

module _ (equal_fold : String → String → Bool) where
  -- Some entry of the list is a permission that covers the action.
  pub Listed : Permission → List String → Type 0
  Listed action entries =
      (s : String) × (p : Permission) × Memᴰ s entries
      × (parse_permission s ≡ ok p)
      × (match_permission equal_fold p action ≡ true)

  -- What each decision says of the three lists.
  pub Decides : RolePermissions → Permission → PermissionDecision → Type 0
  Decides perms action hard_deny = Listed action perms.never
  Decides perms action requires_human =
      (¬ Listed action perms.never) × Listed action perms.requires_human
  Decides perms action allow =
      (¬ Listed action perms.never)
      × (¬ Listed action perms.requires_human)
      × Listed action perms.allowed_tools
  Decides perms action undeclared =
      (¬ Listed action perms.never)
      × (¬ Listed action perms.requires_human)
      × (¬ Listed action perms.allowed_tools)

  matches_entry_iff :
      (action : Permission) (r : Result PermissionError Permission)
      → matches_entry equal_fold action r ≡ true
      → (p : Permission) × (r ≡ ok p) × (match_permission equal_fold p action ≡ true)
  matches_entry_iff action (ok p) h = (p, refl, h)
  matches_entry_iff action (err _) h = absurd (cc)

  matches_any-Listed :
      (action : Permission) (entries : List String)
      → matches_any equal_fold action entries ≡ true
      → Listed action entries
  unfolding matches_any Listed
  matches_any-Listed action [] h = absurd (cc)
  matches_any-Listed action (s ∷ entries) h =
      elim (Bool-cases (matches_entry equal_fold action (parse_permission s))) [
        | inl e ↦ let (p, q, m) = matches_entry_iff action _ e in (s, p, Memᴰ.head refl, q, m)
        | inr e ↦
            let (t, p, i, q, m) = matches_any-Listed action entries (ground arith) in
            (t, p, Memᴰ.tail i, q, m)
      ]

  matches_any_mem :
      (action p : Permission) (s : String) (entries : List String)
      → Memᴰ s entries
      → parse_permission s ≡ ok p
      → match_permission equal_fold p action ≡ true
      → matches_any equal_fold action entries ≡ true
  unfolding matches_any
  matches_any_mem action p s [] i h k = elim i [ ]
  matches_any_mem action p s (t ∷ entries) (Memᴰ.head e) h k = rw (sym e, h, k) refl
  matches_any_mem action p s (t ∷ entries) (Memᴰ.tail i) h k =
      rw (matches_any_mem action p s entries i h k)
        (if_same (matches_entry equal_fold action (parse_permission t)) true)

  pub matches_any_iff :
      (action : Permission) (entries : List String)
      → matches_any equal_fold action entries ≡ true ↔ Listed action entries
  unfolding Listed
  matches_any_iff action entries = (
    matches_any-Listed action entries,
    λ (s, p, i, h, k). matches_any_mem action p s entries i h k,
  )

  not-Listed :
      (action : Permission) (entries : List String)
      → matches_any equal_fold action entries ≡ false
      → ¬ Listed action entries
  not-Listed action entries h k = absurd (ground (arith, (matches_any_iff action entries).1 k))

  -- The decision is that of the first of the lists `never`, `requires_human`, `allowed_tools` with an
  -- entry that is a permission and covers the action, and undeclared if there is none.
  pub evaluate_action-Decides :
      (perms : RolePermissions) (action : Permission)
      → Decides perms action (evaluate_action equal_fold perms action)
  unfolding evaluate_action Decides
  evaluate_action-Decides perms action =
      elim (Bool-cases (matches_any equal_fold action perms.never)) [
        | inl n ↦ rw n ((matches_any_iff action perms.never).0 n)
        | inr n ↦ elim (Bool-cases (matches_any equal_fold action perms.requires_human)) [
          | inl r ↦
              rw (n, r)
                (not-Listed action perms.never n, (matches_any_iff action perms.requires_human).0 r)
          | inr r ↦ elim (Bool-cases (matches_any equal_fold action perms.allowed_tools)) [
            | inl a ↦
                rw (n, r, a)
                  (
                    not-Listed action perms.never n,
                    not-Listed action perms.requires_human r,
                    (matches_any_iff action perms.allowed_tools).0 a,
                  )
            | inr a ↦
                rw (n, r, a)
                  (
                    not-Listed action perms.never n,
                    not-Listed action perms.requires_human r,
                    not-Listed action perms.allowed_tools a,
                  )
          ]
        ]
      ]
