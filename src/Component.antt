-- ===== src/Component.antt =====
-- src/as-component.c: parts of software components.
pub mod Relations
pub mod Search
pub mod Tags
pub mod Box
