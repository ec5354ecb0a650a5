-- ===== src/Tests.antt =====
-- Runs at concrete inputs, and the witnesses of the theorems.
mod Utf8
mod Contexts
mod Strings
mod Pools
mod Handlers
mod Keys
mod Arrays
mod Addons
mod Sorts
mod Surroundings
mod Instances
mod StringLists
