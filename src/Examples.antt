-- ===== src/Examples.antt =====
-- The theorems at concrete inputs, and tests of the definitions, by the part that they try.
mod Site
mod Literals
mod Choices
mod Hooks
mod Matrix
mod Workspace
mod Directory
mod Shop
mod Clients
mod Organisation
mod Entrance
mod Panel
