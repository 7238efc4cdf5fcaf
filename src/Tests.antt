-- ===== src/Tests.antt =====
-- Concrete runs of the code, at which the theorems are applied.
mod Fixtures
mod CoreRuns
mod TimingRuns
mod DecisionRuns
mod PartRuns
mod EffectRuns
mod ExecutorRuns
mod QueueRuns
mod AdmissionRuns
mod ScopeRuns
mod JournalRuns
mod IpcRuns
mod StoreRuns
