-- ===== src/Examples.antt =====
-- Runs of the models of src/Bolt on concrete inputs.
mod Lists
mod Nodes
mod Trees
mod Database
mod Commits
mod Buckets
