-- ===== src/Phase/Roles.antt =====
-- The roles that a phase dispatches, and when one is skipped: roleShouldSkip, reviewerRoles and
-- testerRoles of coding/phaseloop/executor.go.
use coworker.Prelude.{
  ℕ, String, Bool, true, false, not, Option, none, some, List, [], ◌∷◌, ◌==◌, eqb, if◌then◌else◌,
  length, Result, ok, err, ◌>>=◌,
}

pub record AppliesWhen : Type 0 where
  pub changes_touch : List String
  pub commit_msg_contains : String
  pub phase_index_in : String

-- The predicates on the files and the commit of a work directory, which run git, and the one on the
-- phase's index.
pub record Predicates : Type 0 where
  pub changes_touch_in_dir : String → List String → Result String Bool
  pub commit_msg_contains : String → String → Result String Bool
  pub phase_index_in : ℕ → String → Result String Bool

pub record RoleFilter : Type 0 where
  pub work_dir : String
  pub role_dir : String
  pub predicates : Predicates
  -- What LoadRole finds of `applies_when`, or its error.
  pub load_role : String → Result String (Option AppliesWhen)

-- A predicate of the clause: skip the role if it fails, else go on.
abbrev pub must_hold : Result String Bool → Result String Bool → Result String Bool
must_hold (err x) rest = err x
must_hold (ok false) rest = ok true
must_hold (ok true) rest = rest

unfoldable pub in_work_dir : RoleFilter → Result String Bool → Result String Bool
in_work_dir r test = if r.work_dir == "" then err "WorkDir not set" else test

unfoldable pub clause_should_skip : RoleFilter → ℕ → AppliesWhen → Result String Bool
unfolding in_work_dir
clause_should_skip r phase_index a =
    let p = r.predicates in
    let index =
      if not (a.phase_index_in == "")
      then must_hold (p.phase_index_in phase_index a.phase_index_in) (ok false)
      else ok false in
    let message =
      if not (a.commit_msg_contains == "")
      then must_hold (in_work_dir r (p.commit_msg_contains r.work_dir a.commit_msg_contains)) index
      else index in
    if not (eqb (length a.changes_touch) 0)
    then must_hold (in_work_dir r (p.changes_touch_in_dir r.work_dir a.changes_touch)) message
    else message

unfoldable pub role_should_skip : RoleFilter → ℕ → Option AppliesWhen → Result String Bool
role_should_skip r phase_index none = ok false
role_should_skip r phase_index (some a) = clause_should_skip r phase_index a

abbrev pub skipped_of : Result String Bool → Bool
skipped_of (ok b) = b
skipped_of (err _) = false

-- The test of fanOut: an error of a file or a predicate is logged, and the role is dispatched.
unfoldable pub skips : RoleFilter → ℕ → String → Bool
skips r phase_index role_name =
    if not (r.role_dir == "")
    then skipped_of (r.load_role role_name >>= role_should_skip r phase_index)
    else false

abbrev pub default_reviewer_roles : List String
default_reviewer_roles = "reviewer.arch" ∷ "reviewer.frontend" ∷ []

abbrev pub default_tester_roles : List String
default_tester_roles = "tester" ∷ []

-- `none` is a nil slice; an empty one disables the stage.
abbrev pub roles_or : List String → Option (List String) → List String
roles_or defaults none = defaults
roles_or defaults (some roles) = roles
