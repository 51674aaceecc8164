-- ===== src/Controller.antt =====
-- src/controller: the operations of the typed controllers.
pub mod Input
