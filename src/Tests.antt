-- ===== src/Tests.antt =====
-- Concrete inputs: runs of the definitions, and the theorems at inputs that meet their hypotheses.
mod Fixtures
mod AvlRuns
mod AvlWitnesses
mod FormatWitnesses
mod WalWitnesses
mod Samples
mod CommitRuns
mod DeleteRuns
mod CommitWitnesses
mod DeleteWitnesses
