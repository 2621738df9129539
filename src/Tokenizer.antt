-- ===== src/Tokenizer.antt =====
-- src/tokenizer.c: the tokenizer.
pub mod Utf8
pub mod ByteMap
pub mod Vocab
pub mod Array
pub mod Bpe
pub mod Decode
pub mod Encode
pub mod Merges
pub mod Load
