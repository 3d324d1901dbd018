-- ===== src/Delta/Rabin/Encode/RoundTrip.antt =====
-- `encode_rabin` of src/delta/encode/rabin/mod.rs and the decoder of src/delta/decode/mod.rs.
use git_internal.Base.{
  ℕ, zero, suc, ◌+◌, ◌-◌, ◌%◌, ◌^◌, ◌≤◌, ◌<◌, min, Bool, [], ◌∷◌, ◌++◌, Bytes, IsByte, All, Option,
  none, some, ok, ltb, ◌==◌, length, take, drop, ◌≡◌, refl, arith, ap, sym, ◌∙◌, ltb→lt, ltb→le,
  take-append-drop, drop-add, drop_all, length-take, length-drop, append-nil, subst, if_elim,
  take_all,
}
use git_internal.Delta.Size.{write_varint}
use git_internal.Delta.Size.RoundTrip.{write_varint-eq-write_size_encoding}
use git_internal.Delta.Decode.{delta_decode}
use git_internal.Delta.Decode.Stream.{
  Rebuilds, done, Allocates, delta_decode-Rebuilds, Rebuilds-append, Rebuilds-literal,
}
use git_internal.Delta.Rabin.Index.{RabinDeltaIndex, create_delta_index}
use git_internal.Delta.Rabin.Index.Sound.{create_delta_index-IsSound}
use git_internal.Delta.Rabin.Create.Run.{delta_decode-create_delta}
use git_internal.Delta.Rabin.Encode.{
  expect, literal_runs, encode_literal_only, encode_with_index, encode_indexed, encode_rabin,
}

-- A split behind the chunk at `pos`.
drop-chunk : (xs : Bytes) (pos k : ℕ) → drop pos xs ≡ take k (drop pos xs) ++ drop (pos + k) xs
drop-chunk xs pos k =
    sym (take-append-drop k (drop pos xs))
    ∙ ap (λ t. take k (drop pos xs) ++ t) (sym (drop-add pos k (pos + k) xs refl))

literal_runs-Rebuilds :
    (base new_data : Bytes) (fuel pos : ℕ)
    → length new_data ≤ fuel + pos
    → Rebuilds base (literal_runs fuel new_data pos) (drop pos new_data)
unfolding literal_runs
literal_runs-Rebuilds base new_data zero pos h =
    subst (Rebuilds base []) (sym (drop_all pos new_data (omega arith))) done
literal_runs-Rebuilds base new_data (suc fuel) pos h =
    let chunk : ℕ = min 127 (length new_data - pos) in
    let run : Bytes = take chunk (drop pos new_data) in
    let size : length run ≡ chunk =
      omega (arith, length-take chunk (drop pos new_data), length-drop pos new_data) in
    if_elim (λ s. Rebuilds base s (drop pos new_data)) (ltb pos (length new_data))
      (λ more.
        let room : pos < length new_data = ltb→lt pos (length new_data) more in
        let rest : Rebuilds base (literal_runs fuel new_data (pos + chunk))
            (drop (pos + chunk) new_data) =
          literal_runs-Rebuilds base new_data fuel (pos + chunk) (omega arith) in
        let byte : length run ≡ chunk % 256 = omega arith in
        let first : Rebuilds base ((chunk % 256) ∷ run) run =
          subst (λ b. Rebuilds base (b ∷ run) run) byte
            (Rebuilds-literal base run (omega arith) (omega arith)) in
        subst (Rebuilds base _) (sym (drop-chunk new_data pos chunk)) (Rebuilds-append first rest))
      (λ at_end.
        subst (Rebuilds base []) (sym (drop_all pos new_data (ltb→le pos (length new_data) at_end)))
          done)

-- What it means that `delta` carries `new_data` over `old_data`.
abbrev pub Carries : (ℕ → ℕ → Bool) → Bytes → Bytes → Option Bytes → Type 0
Carries reserves old_data new_data result =
    (delta : Bytes) × (result ≡ some delta) × (delta_decode reserves delta old_data ≡ ok new_data)

module _ (reserves : ℕ → ℕ → Bool) (old_data new_data : Bytes) (ho : length old_data < 2 ^ 32)
    (hn : length new_data < 2 ^ 32) (alloc : Allocates reserves (length new_data)) where
  varint_header :
      (stream : Bytes)
      → Rebuilds old_data stream new_data
      → delta_decode reserves
          (write_varint (length old_data) ++ (write_varint (length new_data) ++ stream))
          old_data
        ≡ ok new_data
  varint_header stream r =
      rw
        (
          write_varint-eq-write_size_encoding (length old_data),
          write_varint-eq-write_size_encoding (length new_data),
        )
        (delta_decode-Rebuilds reserves old_data new_data stream (omega arith) (omega arith) alloc
          r)

  encode_literal_only-Carries :
      (n : ℕ)
      → n ≡ length old_data
      → Carries reserves old_data new_data (some (encode_literal_only n new_data))
  unfolding encode_literal_only
  encode_literal_only-Carries n e = (
    encode_literal_only n new_data,
    refl,
    rw e (
        varint_header (literal_runs (length new_data) new_data 0)
          (literal_runs-Rebuilds old_data new_data (length new_data) 0 (omega arith))),
  )

  encode_indexed-Carries :
      (o : Option RabinDeltaIndex)
      → create_delta_index old_data ≡ o
      → All IsByte old_data
      → All IsByte new_data
      → Carries reserves old_data new_data (encode_indexed o (length old_data) new_data)
  unfolding encode_indexed encode_with_index
  encode_indexed-Carries none e bo bn = encode_literal_only-Carries (length old_data) refl
  encode_indexed-Carries (some index) e bo bn =
      let sound = create_delta_index-IsSound old_data ho e in
      let source : index.source ≡ old_data = sound.0 in
      let (delta, made, decoded) =
        delta_decode-create_delta reserves index new_data sound.2
          (subst (All IsByte) (sym source) bo) bn (omega (arith, ap length source)) hn alloc in
      (
        delta,
        ap expect made,
        subst (λ s. delta_decode reserves delta s ≡ ok new_data) source decoded,
      )

-- `encode_rabin` always succeeds, and decoding its delta over the old data gives the new data back:
-- for any byte strings below 4 GiB, and an allocator that gives what the new data's size allows.
pub encode_rabin-Carries :
    (reserves : ℕ → ℕ → Bool) (old_data new_data : Bytes)
    → length old_data < 2 ^ 32
    → length new_data < 2 ^ 32
    → All IsByte old_data
    → All IsByte new_data
    → Allocates reserves (length new_data)
    → Carries reserves old_data new_data (encode_rabin old_data new_data)
unfolding encode_rabin
encode_rabin-Carries reserves old_data new_data ho hn bo bn alloc =
    if_elim (Carries reserves old_data new_data) (length new_data == 0)
      (λ empty.
        let size : 0 ≡ length new_data = ground arith in
        let no_bytes : [] ≡ new_data = take_all 0 new_data (omega arith) in
        let header : Bytes = write_varint (length old_data) in
        let d : delta_decode reserves (header ++ (write_varint (length new_data) ++ [])) old_data
            ≡ ok new_data =
          varint_header reserves old_data new_data ho hn alloc []
            (subst (Rebuilds old_data []) no_bytes done) in
        let d' : delta_decode reserves (header ++ write_varint (length new_data)) old_data
            ≡ ok new_data =
          subst (λ tail. delta_decode reserves (header ++ tail) old_data ≡ ok new_data)
            (append-nil (write_varint (length new_data))) d in
        (
          header ++ write_varint 0,
          refl,
          subst (λ n. delta_decode reserves (header ++ write_varint n) old_data ≡ ok new_data)
              (sym size) d',
        ))
      (λ _.
        if_elim (Carries reserves old_data new_data) (length old_data == 0)
          (λ no_source.
            encode_literal_only-Carries reserves old_data new_data ho hn alloc 0 (ground arith))
          (λ _.
            encode_indexed-Carries reserves old_data new_data ho hn alloc
              (create_delta_index old_data) refl bo bn))
