-- ===== src/Journal/Transitions.antt =====
-- store.rs: the transactions that move one settlement along its states. Each locks its row, so it
-- runs on one state of the database; an error rolls it back.
mod Common
mod AwaitingRetry
mod Submission
mod Terminal
mod Depth
unfoldable pub use Common.*
unfoldable pub use AwaitingRetry.*
unfoldable pub use Submission.*
unfoldable pub use Terminal.*
unfoldable pub use Depth.*
