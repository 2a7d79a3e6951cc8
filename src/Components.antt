-- ===== src/Components.antt =====
-- frontend/src/components: the parts of the components that compute something.
pub mod GroupTree
