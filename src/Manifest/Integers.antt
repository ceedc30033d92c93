-- ===== src/Manifest/Integers.antt =====
-- Go's `int`, where the sign counts: plan ids come from a file. Bounds do not matter here, since
-- the code only compares ids.
use coworker.Prelude.{ℕ, zero, suc, ◌≡◌, Bool, true, false, eqb, arith, ◌↔◌}

pub data ℤ : Type 0 where
  pos : ℕ → ℤ
  negsuc : ℕ → ℤ

abbrev pub positive : ℤ → Bool
positive (pos zero) = false
positive (pos (suc _)) = true
positive (negsuc _) = false

abbrev pub eqz : ℤ → ℤ → Bool
eqz (pos a) (pos b) = eqb a b
eqz (negsuc a) (negsuc b) = eqb a b
eqz _ _ = false

pub eqz_iff : (a b : ℤ) → eqz a b ≡ true ↔ a ≡ b
eqz_iff (pos a) (pos b) = ground arith
eqz_iff (pos a) (negsuc b) = ground arith
eqz_iff (negsuc a) (pos b) = ground arith
eqz_iff (negsuc a) (negsuc b) = ground arith
