-- ===== src/Tests.antt =====
-- Runs of the model on concrete inputs, and the theorems at inputs that meet their conditions.
mod IdmapRuns
mod OperationRuns
mod ConfigRuns
mod DevicesRuns
mod AllocationRuns
mod LockRuns
mod BalanceRuns
mod UpgradeRuns
mod StorageRuns
mod DaemonRuns
mod CephRuns
mod LvmRuns
mod AutostartRuns
mod NetworkRuns
