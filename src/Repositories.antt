-- ===== src/Repositories.antt =====
-- backend/src/modules/repositories: the connected repositories of a user and their graphs.
pub mod Connection
pub mod Graph
pub mod Installations
