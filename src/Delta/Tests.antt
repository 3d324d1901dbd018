-- ===== src/Delta/Tests.antt =====
-- Runs of the delta code on short inputs, and the theorems at them.
use git_internal.Base.{
  ℕ, ◌≤◌, Option, none, ◌<◌, ◌^◌, List, [], ◌∷◌, ◌++◌, Bytes, some, ok, err, length, take, drop,
  replicate, ◌≡◌, refl, arith,
}
use git_internal.Delta.Samples.{
  old_bytes, new_bytes, always, always-Allocates, hello, jelly, old_index,
}
use git_internal.Delta.Size.{read_size_encoding, write_size_encoding}
use git_internal.Delta.Size.RoundTrip.{
  read_size_encoding-write_size_encoding, write_varint-eq-write_size_encoding,
}
use git_internal.Delta.Size.{write_varint}
use git_internal.Delta.Copy.{copy_operands, copy_op, push_copy_op}
use git_internal.Delta.Copy.RoundTrip.{copy_operands-push_copy_op}
use git_internal.Delta.Decode.{delta_decode, exceeds_declared}
use git_internal.Delta.Decode.Stream.{done, literal, copy, delta_decode-Rebuilds}
use git_internal.Delta.Decode.Sound.{Ends, delta_decode-Ends, delta_decode-sizes}
use git_internal.Delta.Diff.{Event, equal_at, insert_at, delete_at, new, encode}
use git_internal.Delta.Diff.Script.{
  Script, finished, equal_step, insert_step, delete_step, delta_decode-encode,
}
use git_internal.Delta.Rabin.Match.{extend_match}
use git_internal.Delta.Rabin.Match.Words.{common_prefix}
use git_internal.Delta.Rabin.Match.Reference.{extend_match-common_prefix}
use git_internal.Delta.Rabin.Hash.{hash_bytes}
use git_internal.Delta.Rabin.Hash.Range.{hash_bytes-lt}
use git_internal.Delta.Rabin.Index.{create_delta_index, cull_bucket}
use git_internal.Delta.Rabin.Index.Sound.{IsSound, create_delta_index-IsSound}
use git_internal.Delta.Rabin.Index.Cull.{length-cull_bucket}
use git_internal.Delta.Rabin.Encode.{encode_rabin}
use git_internal.Delta.Rabin.Encode.RoundTrip.{Carries, encode_rabin-Carries}

encode_rabin-Carries_example : Carries always old_bytes new_bytes (encode_rabin old_bytes new_bytes)
encode_rabin-Carries_example =
    encode_rabin-Carries always old_bytes new_bytes (omega arith) (omega arith) (omega arith)
      (omega arith) (always-Allocates (length new_bytes))

abbrev hello_jelly : List Event
hello_jelly =
    insert_at 0 0 1 ∷ delete_at 0 1 ∷ equal_at 1 1 3 ∷ insert_at 4 4 1 ∷ delete_at 4 1 ∷ []

hello-Script : Script hello jelly 0 0 hello_jelly
hello-Script = insert_step 1 (omega arith) (omega arith) (
    delete_step 1 (
      equal_step 3 (omega arith) (omega arith) refl
        (insert_step 1 (omega arith) (omega arith) (delete_step 1 (finished refl)))))

encode_test : encode (new hello jelly hello_jelly) ≡ 5 ∷ 5 ∷ 1 ∷ 106 ∷ 0x91 ∷ 1 ∷ 3 ∷ 1 ∷ 121 ∷ []
unfolding encode new
encode_test = refl

decode_test : delta_decode always (5 ∷ 5 ∷ 1 ∷ 106 ∷ 0x91 ∷ 1 ∷ 3 ∷ 1 ∷ 121 ∷ []) hello ≡ ok jelly
unfolding delta_decode
decode_test = refl

-- "Instructions may not produce more bytes than the declared result size."
exceeding_test : delta_decode always (0 ∷ 1 ∷ 2 ∷ 97 ∷ 98 ∷ []) [] ≡ err exceeds_declared
unfolding delta_decode
exceeding_test = refl

delta_decode-encode_example :
    delta_decode always (encode (new hello jelly hello_jelly)) hello ≡ ok jelly
delta_decode-encode_example =
    delta_decode-encode always hello jelly hello_jelly (omega arith) (omega arith)
      (always-Allocates 5) hello-Script

old_indexed : create_delta_index old_bytes ≡ some old_index
unfolding create_delta_index
old_indexed = refl

create_delta_index-IsSound_example : IsSound old_bytes old_index
create_delta_index-IsSound_example =
    create_delta_index-IsSound old_bytes {index = old_index} (omega arith) old_indexed

delta_decode-Ends_example : Ends (delta_decode always (5 ∷ 5 ∷ 0x91 ∷ 1 ∷ []) hello)
delta_decode-Ends_example = delta_decode-Ends always (5 ∷ 5 ∷ 0x91 ∷ 1 ∷ []) hello

delta_decode-sizes_example :
    (rest rest' : Bytes) × (read_size_encoding (5 ∷ 5 ∷ 1 ∷ 106 ∷ 0x91 ∷ 1 ∷ 3 ∷ 1 ∷ 121 ∷ [])
      ≡ ok (5, rest))
    × (read_size_encoding rest ≡ ok (5, rest'))
delta_decode-sizes_example =
    delta_decode-sizes always (5 ∷ 5 ∷ 1 ∷ 106 ∷ 0x91 ∷ 1 ∷ 3 ∷ 1 ∷ 121 ∷ []) hello jelly
      decode_test

-- "ell" copied, and "y" put in.
abbrev jelly_tail : Bytes
jelly_tail = 101 ∷ 108 ∷ 108 ∷ 121 ∷ []

-- The offset 1 with a needless 0 behind it, and the size 3.
abbrev ell_offset : List (Option ℕ)
ell_offset = some 1 ∷ some 0 ∷ none ∷ none ∷ []

abbrev ell_size : List (Option ℕ)
ell_size = some 3 ∷ none ∷ none ∷ []

delta_decode-Rebuilds_example :
    delta_decode always
      (write_size_encoding 5 ++ (write_size_encoding 4 ++ (0x93 ∷ 1 ∷ 0 ∷ 3 ∷ (1 ∷ 121 ∷ []))))
      hello
    ≡ ok jelly_tail
delta_decode-Rebuilds_example =
    delta_decode-Rebuilds always hello jelly_tail (0x93 ∷ 1 ∷ 0 ∷ 3 ∷ (1 ∷ 121 ∷ [])) (omega arith)
      (omega arith) (always-Allocates 4)
      (copy ell_offset ell_size (record { sized = refl; bytes = omega arith })
        (record { sized = refl; bytes = omega arith }) (omega arith)
        (literal (121 ∷ []) (omega arith) (omega arith) done))

extend_match-common_prefix_example :
    extend_match hello jelly 1 1 4 ≡ common_prefix (take 4 (drop 1 hello)) (take 4 (drop 1 jelly))
extend_match-common_prefix_example =
    extend_match-common_prefix hello jelly 1 1 4 (omega arith) (omega arith)

read_size_encoding-write_size_encoding_example :
    read_size_encoding (write_size_encoding 300 ++ 7 ∷ []) ≡ ok (300, 7 ∷ [])
read_size_encoding-write_size_encoding_example =
    read_size_encoding-write_size_encoding 300 (7 ∷ []) (omega arith)

write_varint-eq-write_size_encoding_example : write_varint 300 ≡ write_size_encoding 300
write_varint-eq-write_size_encoding_example = write_varint-eq-write_size_encoding 300

-- A copy of 16 MiB is read as one of 64 KiB.
copy_operands-push_copy_op_example :
    (instruction : ℕ) × (args : Bytes) × (push_copy_op (9 ∷ []) 5 (2 ^ 24) ≡ 9 ∷ copy_op 5 (2 ^ 24))
    × (copy_op 5 (2 ^ 24) ≡ instruction ∷ args)
    × (128 ≤ instruction)
    × (instruction < 256)
    × (copy_operands instruction (args ++ []) ≡ ok (5, 65536, []))
copy_operands-push_copy_op_example = copy_operands-push_copy_op (9 ∷ []) 5 (2 ^ 24) []

length-cull_bucket_example :
    length (cull_bucket (replicate 70 (record { offset = 16; hash = 1 }))) ≡ 64
length-cull_bucket_example =
    length-cull_bucket (replicate 70 (record { offset = 16; hash = 1 })) (omega arith)

hash_bytes-lt_example : hash_bytes 0 hello < 2 ^ 31
hash_bytes-lt_example = hash_bytes-lt 0 hello (omega arith) (omega arith)
