-- ===== src/Tests.antt =====
-- Runs on concrete inputs, and the theorems at inputs that meet their hypotheses.
mod Council
mod Marketplace
mod Immigration
mod PranaEngine
mod GhRate
mod CommentLedger
mod ThreadState
mod Referendum
mod Registry
mod ReviewLedger
mod Bounty
mod ReviewPolicy
mod MergeAuthority
