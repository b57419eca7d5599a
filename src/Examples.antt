-- ===== src/Examples.antt =====
-- Runs of the model on small inputs, and each theorem at an input that meets its hypotheses.
mod Bits
mod Dirs
mod Blocks
mod Formats
mod Removal
mod Catalogs
mod Trees
mod Sessions
mod Starts
mod Files
