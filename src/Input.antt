-- ===== src/Input.antt =====
-- Input sessions, crates/jackstay/src/input: one controller at a time drives a target through a
-- bounded queue that an executor empties.
pub mod Model
pub mod Validate
pub mod State
pub mod Target
pub mod Controller
pub mod Frame
pub mod Invariant
pub mod Executing
pub mod Landing
pub mod Completing
pub mod Submitting
pub mod Queueing
pub mod Calls
pub mod Onward
pub mod Lasting
pub mod Sequence
pub mod Order
pub mod Answering
pub mod Sending
pub mod Ending
pub mod Leftover
mod Tests
pub mod Moving
