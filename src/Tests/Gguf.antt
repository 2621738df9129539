-- ===== src/Tests/Gguf.antt =====
-- A small GGUF file, and the theorems about the container at concrete inputs.
use etha_jhol.Common.{
  ℕ, ◌+◌, ◌^◌, ◌≤◌, ◌<◌, ◌≡◌, refl, arith, true, false, List, [], ◌∷◌, ◌++◌, All, some, length, map,
  replicate,
}
use etha_jhol.Gguf.File.{
  Run, done, File, gguf_open, find_tensor, gguf_meta, linear_meta, parse_index, finish_index,
  parse_metas, parse_meta, parse_tensors, parse_tensor, alignment_of, all_in_file,
}
use etha_jhol.Gguf.File.Ranges.{IsPlaced, gguf_open-IsPlaced, gguf_open-lookups}
use etha_jhol.Gguf.Hash.{hash_insert, fnv1a, hash_find, occupied, rehash, make_room}
use etha_jhol.Gguf.Index.{build_index, find_name, linear_from}
use etha_jhol.Gguf.Layout.{Tensor, align_up_u64, tensor_bytes, in_file}
use etha_jhol.Gguf.Layout.Sizes.{in_file-wraps}
use etha_jhol.Common.Result.{ok}
use etha_jhol.Probe.Search.{search}
use etha_jhol.Quant.{quant_info}
use etha_jhol.Gguf.Reader.{overflow}
use etha_jhol.Gguf.Value.{FloatText, Buffer, append_item, read_scalar_value}
use etha_jhol.Gguf.Value.Growth.{append_item-overflows, specials}

abbrev no_floats : FloatText
no_floats = record { fmt_f32 = λ b. b'0' ∷ []; fmt_f64 = λ b. b'0' ∷ [] }

abbrev word64 : ℕ → List ℕ
word64 n = n ∷ replicate 7 0

-- One tensor "a" of 32 floats, one entry "k" with the string "v", and no byte to spare.
abbrev file_bytes : List ℕ
file_bytes =
    (b'G' ∷ b'G' ∷ b'U' ∷ b'F' ∷ 3 ∷ 0 ∷ 0 ∷ 0 ∷ [])
    ++ (word64 1
        ++ (word64 1
            ++ (word64 1
                ++ (b'k'
                    ∷ 8
                    ∷ 0
                    ∷ 0
                    ∷ 0
                    ∷ (word64 1
                        ++ (b'v' ∷ []
                            ++ (word64 1
                                ++ (b'a'
                                    ∷ 1
                                    ∷ 0
                                    ∷ 0
                                    ∷ 0
                                    ∷ (word64 32
                                        ++ (0 ∷ 0 ∷ 0 ∷ 0 ∷ (word64 0 ++ replicate 145 0)))))))))))

abbrev file_of : Run File → File
file_of (done f) = f
file_of _ = record {
  file_size = 0;
  data_base = 0;
  tensors = [];
  metas = [];
  tensor_hash = record { slots = []; cap = 0 };
  meta_hash = record { slots = []; cap = 0 };
}

abbrev opened : Run File
opened = gguf_open no_floats (some file_bytes)

abbrev the_file : File
the_file = file_of opened

program : Unit {0}
unfolding gguf_open parse_index finish_index parse_metas parse_meta parse_tensors parse_tensor
    alignment_of all_in_file in_file align_up_u64 quant_info build_index hash_insert make_room
    rehash hash_find search occupied fnv1a read_scalar_value find_tensor gguf_meta find_name
program = tt

opened-done : opened ≡ done the_file
unfolding program
opened-done = refl

opened_facts : (length file_bytes < 2 ^ 64) × (the_file.data_base ≤ length file_bytes)
unfolding program
opened_facts = omega arith

gguf_open-IsPlaced_example : All (IsPlaced the_file) the_file.tensors
gguf_open-IsPlaced_example =
    gguf_open-IsPlaced no_floats file_bytes opened-done opened_facts.0 opened_facts.1

gguf_open-lookups_example :
    (find_tensor the_file (b'a' ∷ [])
      ≡ linear_from 0 (map Tensor.name the_file.tensors) (b'a' ∷ []))
    × (gguf_meta the_file (b'k' ∷ []) ≡ linear_meta the_file.metas (b'k' ∷ []))
gguf_open-lookups_example =
    gguf_open-lookups no_floats file_bytes opened-done (b'a' ∷ []) (b'k' ∷ [])

-- The lookups find the tensor and the value.
lookups_run :
    (find_tensor the_file (b'a' ∷ []) ≡ some 0)
    × (gguf_meta the_file (b'k' ∷ []) ≡ some (b'v' ∷ []))
unfolding program
lookups_run = (refl, refl)

abbrev three_names : List (List ℕ)
three_names = (b'a' ∷ []) ∷ (b'b' ∷ []) ∷ (b'a' ∷ []) ∷ []

sized_example : tensor_bytes 2 (64 ∷ 3 ∷ []) ≡ ok 108
unfolding program
sized_example = refl

abbrev a_tensor : Tensor
a_tensor = record {
  name = b'a' ∷ [];
  dims = 64 ∷ 3 ∷ [];
  ggml_type = 2;
  data_offset = 32;
  nbytes = 108;
}

in_file-wraps_example : (in_file 90 96 a_tensor ≡ true) × (90 < 96 + 32)
in_file-wraps_example = in_file-wraps 90 96 a_tensor (omega arith) (omega arith) (omega arith)

abbrev new_buffer : Buffer
new_buffer = record { text = b'[' ∷ []; cap = 64 }

abbrev quotes : List ℕ
quotes = replicate 59 b'"'

-- An array whose first string is 59 quotes.
append_item-overflows_example : append_item false true quotes new_buffer ≡ overflow
unfolding specials
append_item-overflows_example =
    append_item-overflows false quotes new_buffer 0 (omega arith) (omega arith)
