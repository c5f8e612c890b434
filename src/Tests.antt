-- ===== src/Tests.antt =====
-- Concrete runs of the modelled code, at which the theorems apply.
mod Containers
mod Lists
mod Keyed
mod Board
mod Pmics
mod Mailboxes
mod Clients
mod Tasks
mod Endpoints
