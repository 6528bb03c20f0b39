-- ===== src/Workspaces.antt =====
-- backend/src/spidey/workspaces: the paths and the edits of a workspace's files.
pub mod Paths
pub mod Edits
