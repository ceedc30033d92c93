-- ===== src/Phase.antt =====
-- coding/phaseloop: one phase of a plan, from the developer's job over the reviews to the fix loop.
pub mod Fanin
pub mod Merge
pub mod Rounds
pub mod Dedupe
pub mod Roles
pub mod Loop
pub mod Outcome
