-- ===== src/Probe.antt =====
-- Linear probing over a ring of `n` slots, as the tensor index of src/gguf.c and the vocabulary
-- index of src/tokenizer.c use it: the slots that a search visits, and what an insertion does to
-- them. A table is read through `at`, the content of each position.
pub mod Ring
pub mod Walk
pub mod Insert
pub mod Table
pub mod Search
