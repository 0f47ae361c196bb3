-- ===== src/Tests.antt =====
-- The theorems at concrete inputs, and runs of the models.
mod Mrg
mod Generator
mod Primitives
mod Vertices
mod Validate
mod Fiber
mod Range
mod Utils
mod Storage
mod TopDown
mod Scatter
mod Comm
