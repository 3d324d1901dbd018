-- ===== src/Lib.antt =====
-- git-internal: the core codecs of a Git library in Rust.
--
-- The program. `src/delta` makes and applies deltas: a delta is a stream of bytes, first the sizes
-- of the old and the new data, then literal and copy instructions. `delta_decode` rebuilds the new
-- data; two encoders write such streams, `DeltaDiff` over the calls that the diffs crate makes, and
-- the Rabin encoder, which indexes the old data by the fingerprints of its 16-byte windows and
-- extends each match that it finds. `src/internal/pack` frames objects and deltas in pack files:
-- a header of twelve bytes, and for each object a header with its type and size, the distance to
-- its base where it is an offset delta, and the compressed data, and a checksum at the end. The encoder
-- writes the entries in batches that are compressed in parallel; the decoder reads them one by one,
-- checks each against what an index supplies, and skips what nothing needs. A delta that is read before its
-- base waits in a waitlist, and the tasks of a thread pool, in any order, rebuild the deltas whose
-- bases they find. A pack index lists where each object of a pack stands. `src/hash.rs` has the object
-- identifiers of three hash kinds, which name every object; `src/internal/object` has the kinds of
-- objects and the trees, `src/internal/index.rs` the index of the working tree, a file of entries in
-- the order of their names, and `src/protocol` frames the messages of the smart protocol in pkt-lines.
--
-- Where each part stands:
--   Base                 lists measured by native numbers, bytes, results, laws of bit operations,
--                        sorted maps, decimals and UTF-8
--   Delta.Size           src/delta/utils.rs (read_size_encoding), src/delta/encode/mod.rs
--                        (write_size_encoding), src/delta/encode/rabin/mod.rs (write_varint)
--   Delta.Copy           src/delta/utils.rs (read_partial_int), encode_op, push_copy_op, and what
--                        delta_decode makes of a copy instruction's operands
--   Delta.Decode         src/delta/decode/mod.rs and src/delta/errors.rs
--   Delta.Diff           src/delta/encode/mod.rs: DeltaDiff as a record, its trait methods as
--                        functions on it, and the crate's run as a list of calls
--   Delta.Rabin.Tables, Hash, Match, Index, Create, Encode
--                        src/delta/encode/rabin: tables.rs, extend_match.rs and mod.rs
--   Pack.Varint          src/internal/pack/utils.rs (the readers) and
--                        src/internal/pack/encode/header.rs (encode_offset, the entry's header)
--   Pack.Header          encode_header, and check_header of src/internal/pack/decode.rs
--   Pack.Entry           encode_one_object of src/internal/pack/encode/header.rs
--   Pack.Waitlist        src/internal/pack/waitlist.rs
--   Pack.Resolve         the resolution of deltas by the tasks of src/internal/pack/decode.rs, and the
--                        lookups of src/internal/pack/cache.rs
--   Pack.Idx             src/internal/pack/pack_index.rs: the parser (Read) and IdxBuilder (Write)
--   Pack.Object          decode_pack_object_with_crc of src/internal/pack/decode.rs, with what it calls
--                        to decompress, to hash, to skip and to check one object
--   Pack.Encode          src/internal/pack/encode/mod.rs (PackEncoder) and parallel.rs
--   Pack.Decode          decode_inner of src/internal/pack/decode.rs: the objects in their order and the
--                        trailer; what the tasks do with the objects is in Pack.Resolve
--   Object.Types, Names  ObjectType of src/internal/object/types.rs
--   Object.Tree          src/internal/object/tree.rs
--   Hash                 src/hash.rs, the hashers of src/utils.rs, and the object hashes of
--                        src/internal/pack/utils.rs
--   Index                src/internal/index.rs: Flags, Entry, File, and the entries in memory (Map)
--   Protocol.PktLine     read_pkt_line and add_pkt_line_string of src/protocol/utils.rs
--
-- How code and model correspond. A slice, a Vec and a stream that is read are lists of numbers; what
-- needs them to be bytes says so by `All IsByte`. A function that reads from a stream returns the
-- stream behind it. A usize and a u64 have 64 bits, and the platform is little-endian; a shift that
-- loses bits is written with `%`. A `Result` is a result with the program's errors as constructors,
-- a panic is `none` or an error of its own name; a lookup of `create_delta` that is out of range, or a
-- subtraction there that a debug build refuses, is `panicked`. The variables of the Rabin encoder's loop are the
-- record `State`, and each part of the loop's body is a function on it. The threads that resolve deltas
-- are a relation: a task is cut where it looks at what is shared, each cut is one step, and any task
-- of the pool may make the next. An insertion into the cache counts as one step, and so
-- do the two lookups of `get_by_offset` and the two removals of the waitlist's `take`.
--
-- Loops. A loop over a stream is a recursion on the stream. A loop on fuel has as many rounds as
-- the bytes or digits that it works through: ten groups of seven bits in a usize, the length of the
-- target in `create_delta`, of the stream in `decode_loop`, of the new data in `literal_runs`. That
-- is enough because each round takes a byte at least: the main loop of `create_delta` moves on in
-- the target, and `decode_loop` takes the instruction's own byte. A decoder that ran out of rounds
-- would return `out_of_fuel`, which is no error of the program. The loop over a tree's items has the
-- length of the tree's data, and an `out_of_fuel` of its own; that over an index's extensions the length of the file, and a decimal
-- number has at most twenty digits. The tables of a pack index are as long as they say. The batches of
-- the encoder are no more than its entries, since each takes one entry at least, and the loop over the
-- objects of a pack has the number of its header.
--
-- Parameters. The allocator of `prepare_result_append` is the test `reserves`, and theorems that
-- need an allocation to succeed assume `Allocates`. The calls that the diffs crate makes are a list,
-- of which `Script` says what a correct diff reports. The compressor of flate2 is a function, and so is
-- its decompressor, from a stream to what it delivers and how it ends; `Inflates` says that it gives back
-- what was compressed and takes nothing of what follows. The CRC is a function. A channel is the list of
-- the bytes sent, with a receiver that stays. The size of a batch is any positive number. The hash
-- functions are the record `Digests`, the hexadecimal library is `Hex`, a tree's byte search and its
-- GBK decoder are `Text`, and the zstd library is a function. The hash kind of a thread is an argument.
--
-- Not modelled: the counters of `DeltaStats`, the similarity rates (floating point), the counters of the
-- pack decoder's retention plan and the scan that fills them, its low-memory callbacks, the eviction and
-- the files of its cache, the encoder's windowed path with the delta search and the order of its entries,
-- the pack index of version 1, the index's queries by directory and its refresh, commits, tags, notes and
-- signatures, the records of the agent objects, the unified diff, zlib and zstd, and the protocol's
-- handlers.
pub mod Base
pub mod Delta
pub mod Hash
pub mod Index
pub mod Object
pub mod Pack
pub mod Protocol
