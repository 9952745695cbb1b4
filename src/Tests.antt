-- ===== src/Tests.antt =====
-- Runs of the model on concrete inputs, and the theorems at inputs that meet their hypotheses.
mod Json
mod Maps
mod Queues
mod Interleavings
mod Pointers
mod Processes
mod Timers
mod Texts
mod Threads
mod Systems
mod Registers
