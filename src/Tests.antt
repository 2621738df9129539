-- ===== src/Tests.antt =====
-- Runs of the definitions and the theorems at concrete inputs.
mod Gguf
mod Text
mod Cache
mod Pages
mod Pool
mod Merges
mod ModelProbe
mod Read
mod TensorSource
mod Encode
mod Array
mod Decode
mod Speculative
mod Quant
mod Load
