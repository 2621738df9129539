-- ===== src/Gguf.antt =====
-- src/gguf.c: the GGUF container.
pub mod Hash
pub mod Reader
pub mod Value
pub mod Layout
pub mod Index
pub mod File
pub mod Read
