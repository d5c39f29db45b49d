-- ===== src/GuiWeb.antt =====
-- The local web server of src/gui_web.
pub mod Http
pub mod Query
pub mod Connection
mod Tests
