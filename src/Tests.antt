-- ===== src/Tests.antt =====
-- Concrete connections, pairs and proxies, and the theorems at them.
mod Data
mod ConnTests
mod PairTests
mod ProxyTests
mod LawTests
mod LateTests
mod NotifierTests
mod CreatedTests
mod LoopTests
mod HttpTests
mod ConfigTests
mod StartTests
mod StatsTests
mod WorldTests
