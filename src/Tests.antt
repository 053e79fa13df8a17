-- ===== src/Tests.antt =====
-- Concrete inputs for the theorems that have hypotheses, and runs of the definitions.
mod Data
mod Loops
mod Kernels
mod Words
mod Walks
mod Code
mod Arguments
mod Handlers
mod Atomics
mod Locals
mod Accesses
