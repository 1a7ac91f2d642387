-- ===== src/Examples.antt =====
-- The theorems at concrete inputs.
pub mod Memory
pub mod Text
pub mod Answers
pub mod Requests
pub mod Plugins
pub mod Routing
pub mod Files
pub mod Jobs
pub mod Listening
pub mod Serving
pub mod Starting
pub mod Configuring
pub mod Unserved
pub mod Routed
