-- ===== src/Window.antt =====
-- The window functions of internal/function_window.go and the frame that they read.
pub mod Status
pub mod Fold
pub mod Offset
pub mod Ntile
