-- ===== src/Finops.antt =====
-- src/core/finops_invariants: the checks that a figure passes before it is shown.
--
-- A FinOpsInvariantError is `invariant_violated`; its message is left out. The amounts are floats of
-- the interface `Numbers`, and `lower` is Python's str.lower.
pub mod Amounts
pub mod Risk
pub mod Cascade
pub mod Floors
pub mod Confidence
pub mod Assured
pub mod Approval
pub mod Permits
pub mod Audit
pub mod Claims
pub mod Costs
pub mod Dangers
pub mod Traces
mod Tests
