-- ===== src/Tui.antt =====
-- tui: the terminal interface.
pub mod Send
