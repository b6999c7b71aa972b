-- ===== src/Checks.antt =====
-- The theorems at concrete inputs, and runs of the programs.
mod BankRun
mod CleanupRun
mod CopyRun
mod DaemonRun
mod InputRun
mod InvestmentRun
mod MatrixRun
mod PoolRun
mod QueueRun
mod ProxyRun
mod ReactionRun
mod ServerRun
mod ShellRun
mod SharingRun
mod SignalsRun
mod SystemRun
mod TasksRun
mod TimersRun
mod WorkSignalRun
