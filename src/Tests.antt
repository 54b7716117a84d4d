-- ===== src/Tests.antt =====
-- Concrete runs of the model, and the theorems at inputs that meet their hypotheses.
mod Toy
mod Setup
mod Sessions
mod Calls
mod Answers
mod Helpers
mod Configs
mod Tasks
mod Commands
mod Interpreter
mod Pipelines
mod Histories
mod Machines
mod Foreign
mod Greetings
mod Disk
mod Scripts
mod Benches
