-- ===== src/Menu.antt =====
-- apps/web/src/menu-config: the tree behind the menu administration page.
mod Tests
mod MergeTests
pub mod Editor
pub mod Merge
