-- ===== src/Lib.antt =====
-- EthaJhol: the container, the quantized types, the text handling, the caches of tensors, pages and
-- prefixes, the thread pool and the speculative decoding of a GGUF inference runtime.
--
-- The program opens a model file (src/gguf.c), checks every tensor against the table of quantized
-- types and decodes their blocks (src/quant.c), caches the tensors in front of it
-- (src/tensor_source.c), probes whether its own evaluator can run the model (src/model_probe.c), and
-- turns text into tokens and back with the vocabulary that the file's metadata hold
-- (src/tokenizer.c). Sequences share pages of keys and values, and a radix tree finds the cached
-- prefix of a new one (src/kv_cache.c); a pool of threads runs the ranges of the kernels
-- (src/threadpool.c). Speculative decoding lets a draft model propose tokens that the target model
-- verifies (src/speculative.c). The container's index gives the model graph each tensor's place, and
-- its metadata, which it keeps as text, give the tokenizer its vocabulary.
--
-- Files, with the code they model:
--   Common            Booleans, lists over the native numbers, results, strtol
--   Probe             linear probing over a ring of slots, for every open-addressed table
--   Quant             VG_QuantInfo, g_info, vg_quant_info, vg_quant_validate (src/quant.c); Half is
--                     vg_half_to_float (include/vg/quant.h), Blocks the deq_ functions, Blocks.Table
--                     block_fn, vg_dequantize_block, vg_dequantize_row and vg_quantized_dot
--   Gguf.Hash         fnv1a, hash_find, hash_insert (src/gguf.c)
--   Gguf.Reader       rd, u32, u64, read_string, fmt_u64, fmt_i64
--   Gguf.Value        read_array_text, read_scalar_value
--   Gguf.Layout       VG_GGUF_Tensor, align_up_u64, quant_layout and the sizes of parse_index
--   Gguf.Index        the two hash tables of parse_index, vg_gguf_find_tensor
--   Gguf.File         VG_GGUF, parse_index, vg_gguf_open, vg_gguf_meta
--   ModelProbe        vg_model_probe (src/model_probe.c): Meta has the reads of the metadata and
--                     the log of fail and add_quant, Checks and Layers the checks, Run the probe;
--                     Rules, Shapes, Supported, Accepted, Passed and Reported what they find
--   KvCache.Radix     the radix tree of vg_radix_lookup, vg_radix_insert and vg_radix_invalidate
--                     (src/kv_cache.c); Prefix reads it as a map from prefixes to marks
--   KvCache.Pages     the store of pages and the sequences (src/kv_cache.c): vg_kv_open, new_page, evict_pages,
--                     vg_kv_sequence_append, _fork and _close, vg_kv_page_acquire; System is a store with its
--                     sequences, Moved and Shared what growing the array and forking do to pointers
--   Gguf.Read         vg_gguf_map, vg_gguf_read; the calls of the system are the parameter Disk
--   TensorSource      Cache (entries and evict_for), Lease (vg_tensor_acquire, vg_tensor_release),
--                     Prefetch, Stream (vg_tensor_stream), OpenFile (the cache over an open file),
--                     Worker (io_worker, vg_tensor_prefetch_async, vg_tensor_wait); Worker.Content is
--                     the worker over an open file
--   ThreadPool        the sections under the lock, vg_threadpool_parallel_for (src/threadpool.c);
--                     Destroy is vg_threadpool_destroy
--   Tokenizer.Utf8    utf8_put (src/tokenizer.c)
--   Tokenizer.Bpe     BpeWord, bpe_word_push, bpe_word_apply; find_merge is a function from pairs
--                     to ranks
--   Tokenizer.Merges  the merge rules that are read, their index, find_merge
--   Tokenizer.Load    meta_bool, vg_tokenizer_load over any metadata; tokenizer_of gives encoding its
--                     lookups, Load.RoundTrip joins loading, encoding and decoding
--   Tokenizer.ByteMap gpt2_byte_to_cp, gpt2_fallback_index, encode_byte_fwd, vg_token_decode
--   Tokenizer.Array   hex4, scan_quoted, array_next, and the tokens that vg_tokenizer_load reads
--   Tokenizer.Vocab   vg_hash_bytes, vg_index_build, vg_index_insert, find_token_n
--   Tokenizer.Encode  vg_tokenizer_encode with the GPT-2 words, the longest matches of SentencePiece
--                     and the added tokens; a lookup of a token and find_merge are its fields
--   Tokenizer.Decode  vg_tokenizer_decode, vg_tokenizer_decode_sequence
--   Speculative       src/speculative.c: the distributions, the draws, vg_speculative_step; the arithmetic
--                     of floats (Common.Floats) and the model graphs are parameters
--   Tests             the theorems at concrete inputs
--
-- How the model stands to the code. Bytes and machine integers are native numbers, a sum, a product or
-- a difference that can leave its width is written with its wrap-around. A C string is the list of its
-- bytes in front of the zero byte. The open file is the list of its bytes with a cursor; a read behind
-- the end fails. A failing parse gives the status that the code returns; a write behind the end of a
-- buffer and an access through NULL are results of their own (`overflow`, `fault`), so a theorem that
-- a run gives a value says that neither happens. The table of a hash index is a list of slots; the
-- probe loop is recursion on the number of slots left, as in the code.
--
-- A node of the radix tree stands with the nodes behind it in its parent's child array, and a snapshot
-- is a value of any type, since the tree only stores it. A pointer to a page of the cache names the
-- array that it was taken from, so that an access after the array has moved is seen. A buffer of the
-- tensor cache is the list of its bytes, and a tensor its index in the file. The threads of the pool
-- are a step relation with one step for each section that a thread runs under the lock; tasks are
-- numbers, and the lists of begun and finished tasks are history that the code does not keep.
-- The worker of the tensor source takes a step for each section under the lock and for each store that it
-- makes into an entry outside it, which the others see in the order of the program.
--
-- Bounds and fuel: the capacity of the array text is doubled with the size asked for as fuel, which is
-- enough since each doubling of a positive capacity adds at least one; the byte map's decoding loop
-- has the length of the text as fuel, since a round takes at least one byte. The merging loop of
-- bpe_word_apply has any fuel; more than the number of pieces is enough, since a round joins two. The
-- loops of evict_for and evict_pages have a round of fuel for each entry or page, since a round
-- removes one, and the loop of vg_tensor_stream one for each byte, since a round takes at least one.
--
-- Not modelled: allocation failure, the contents of pages and their spill files, text of
-- floating-point numbers (a parameter, FloatText), what vg_tensor_source_close frees, the text of
-- vg_model_probe_report, the arithmetic kernels on floats (src/cpu_ops.c), and the parts that are
-- mostly calls of those kernels, of the system or of a device: the model graph, the LoRA adapters, the
-- native engine, the plugin loader, the trace, the Vulkan backend, the command line.
pub mod Common
pub mod Gguf
pub mod KvCache
pub mod ModelProbe
pub mod Probe
pub mod Quant
pub mod Speculative
pub mod TensorSource
pub mod Tests
pub mod ThreadPool
pub mod Tokenizer
