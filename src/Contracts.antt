-- ===== src/Contracts.antt =====
-- packages/xcron-contracts: the values that the capability packages exchange. The children follow
-- the package's modules domain.py, results.py and requests.py.
mod Domain
mod Results
mod Requests
unfoldable pub use Domain.*
pub use Results.*
pub use Requests.*
