-- ===== src/Examples.antt =====
-- Runs of the model at concrete inputs: each applies a theorem where its hypotheses hold.
mod Psbts
mod Scripts
mod Payments
mod Tests
mod Roles
mod Quorums
mod Corners
