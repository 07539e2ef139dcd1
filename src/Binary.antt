-- ===== src/Binary.antt =====
-- internal/casc/binary.go, and the parts of Go's encoding/binary and slice syntax that the
-- formats use. A byte slice is a list of numbers below 256. Reading out of range is `panic`.
mod Words
mod Reads
mod Writes
mod Slices
mod Search
pub use Words.*
pub use Reads.*
pub use Writes.*
pub use Slices.*
pub use Search.*
