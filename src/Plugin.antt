-- ===== src/Plugin.antt =====
-- plugin: rules on what a manifest declares.
pub mod DocumentPaths
pub mod ContributionRoles
