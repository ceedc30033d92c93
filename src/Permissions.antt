-- ===== src/Permissions.antt =====
-- core/permission.go: the permissions of a role, parsed from text, and the decision on an action.
pub mod Text
pub mod RoundTrip
pub mod Lists
pub mod Evaluate
use Prim.Native.Char.{Char, code}
use Prim.Native.String.{String, [], ◌∷◌}
use mathlib.Core.List
use mathlib.Core.List.{List, [], ◌∷◌}
use coworker.Prelude.{
  Bool, true, false, not, ◌&&◌, Option, none, some, ◌==◌, eqb, any, if◌then◌else◌, Result, ok, err,
}

pub data PermissionDecision : Type 0 where
  allow hard_deny requires_human undeclared : PermissionDecision

-- A `PermissionKind` of the code is a text.
abbrev pub valid_permission_kinds : List String
valid_permission_kinds =
    "read" ∷ "write" ∷ "edit" ∷ "network" ∷ "bash" ∷ "mcp" ∷ "grep" ∷ "glob" ∷ List.[]

abbrev pub kinds_with_subject : List String
kinds_with_subject = "bash" ∷ "mcp" ∷ List.[]

pub record Permission : Type 0 where
  pub kind : String
  pub subject : String
  pub raw : String

pub data PermissionError : Type 0 where
  empty_permission : PermissionError
  unknown_kind : String → String → PermissionError
  subject_required : String → PermissionError
  subject_not_accepted : String → String → PermissionError
  extra_colon : String → PermissionError

-- A set of kinds, which the code keeps as a map into `bool`.
unfoldable pub holds : List String → String → Bool
holds kinds kind = any (λ k. k == kind) kinds

abbrev pub prepend : Char → Option (String × String) → Option (String × String)
prepend c none = none
prepend c (some (a, b)) = some (c ∷ a, b)

-- `strings.IndexByte(s, ':')`, with the texts before and after that byte.
unfoldable pub cut_colon : String → Option (String × String)
cut_colon [] = none
cut_colon (c ∷ s) =
    let rest = cut_colon s in if eqb (code c) b':' then some ("", s) else prepend c rest

-- `strings.Contains(s, ":")`.
unfoldable pub has_colon : String → Bool
has_colon [] = false
has_colon (c ∷ s) = let rest = has_colon s in if eqb (code c) b':' then true else rest

abbrev pub kind_and_subject : String → Option (String × String) → String × String
kind_and_subject s none = (s, "")
kind_and_subject s (some parts) = parts

-- The tests of ParsePermission, in its order.
unfoldable pub check_permission : String → String × String → Result PermissionError Permission
check_permission s (kind_str, rest) =
    let needs_subject = holds kinds_with_subject kind_str in
    if not (holds valid_permission_kinds kind_str)
    then err (unknown_kind kind_str s)
    else if needs_subject && rest == ""
    then err (subject_required kind_str)
    else if not needs_subject && not (rest == "")
    then err (subject_not_accepted kind_str s)
    else if has_colon rest
    then err (extra_colon s)
    else ok (record { kind = kind_str; subject = rest; raw = s })

unfoldable pub parse_permission : String → Result PermissionError Permission
unfolding check_permission cut_colon
parse_permission s =
    if s == "" then err empty_permission else check_permission s (kind_and_subject s (cut_colon s))

-- The permissions and the errors that the loop of ParsePermissions has gathered.
abbrev pub sort_out :
    Result PermissionError Permission
    → List Permission × List PermissionError
    → List Permission × List PermissionError
sort_out (ok p) (out, errs) = (p ∷ out, errs)
sort_out (err e) (out, errs) = (out, e ∷ errs)

unfoldable pub parse_each : List String → List Permission × List PermissionError
unfolding parse_permission
parse_each List.[] = (List.[], List.[])
parse_each (s ∷ ss) = sort_out (parse_permission s) (parse_each ss)

abbrev pub joined :
    List Permission × List PermissionError → Result (List PermissionError) (List Permission)
joined (out, List.[]) = ok out
joined (out, e ∷ errs) = err (e ∷ errs)

-- The error holds those of all entries, which the code joins in one message.
unfoldable pub parse_permissions : List String → Result (List PermissionError) (List Permission)
unfolding parse_each
parse_permissions ss = joined (parse_each ss)

pub record RolePermissions : Type 0 where
  pub allowed_tools : List String
  pub never : List String
  pub requires_human : List String

-- `strings.EqualFold`.
module _ (equal_fold : String → String → Bool) where
  unfoldable pub match_permission : Permission → Permission → Bool
  match_permission perm action =
      if not (perm.kind == action.kind)
      then false
      else if perm.subject == "*"
      then true
      else equal_fold perm.subject action.subject

  abbrev pub matches_entry : Permission → Result PermissionError Permission → Bool
  matches_entry action (ok p) = match_permission p action
  matches_entry action (err _) = false

  unfoldable pub matches_any : Permission → List String → Bool
  unfolding parse_permission
  matches_any action List.[] = false
  matches_any action (s ∷ entries) =
      let rest = matches_any action entries in
      if matches_entry action (parse_permission s) then true else rest

  unfoldable pub evaluate_action : RolePermissions → Permission → PermissionDecision
  unfolding matches_any
  evaluate_action perms action =
      if matches_any action perms.never
      then hard_deny
      else if matches_any action perms.requires_human
      then requires_human
      else if matches_any action perms.allowed_tools
      then allow
      else undeclared
