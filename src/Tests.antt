-- ===== src/Tests.antt =====
-- Concrete inputs, runs of the model on them, and the theorems at these inputs.
mod Data
mod Rules
mod Caching
mod Serving
mod Publishing
mod Retrying
mod OneRow
mod Storing
mod Running
mod Threads
mod Watching
mod Routing
