-- ===== src/Pack/Header/RoundTrip.antt =====
-- `encode_header` and `check_header` of src/internal/pack.
use git_internal.Base.{
  ℕ, ◌-◌, ◌^◌, ◌<◌, Bool, true, false, not, ◌||◌, [], ◌∷◌, ◌++◌, Bytes, some, Result, ok, err,
  map_err, ltb, leb, ◌==◌, same_bytes, if◌then◌else◌, length, take, drop, take-append-drop,
  take-append, drop-append, drop-add, length-append, ==→eq, length-take, leb→le, ◌≡◌, refl, arith,
  ap, ap₂, sym, ◌∙◌, subst, if_elim, >>=-eq-ok, append_assoc,
}
use git_internal.Delta.Size.{IoError}
use git_internal.Delta.Decode.{read_exact}
use git_internal.Delta.Decode.Stream.{read_exact-append}
use git_internal.Pack.Header.{
  PackError, pack_magic, to_be_bytes, be_value, encode_header, check_header, invalid_pack_header,
  wrong_version, reading_magic, reading_version, reading_object_number,
}

be_value-to_be_bytes : (n : ℕ) → n < 2 ^ 32 → be_value 0 (to_be_bytes n) ≡ n
be_value-to_be_bytes n h = omega arith

-- A header of its own three parts.
check_header-parts :
    (n : ℕ) (stream : Bytes)
    → n < 2 ^ 32
    → check_header (pack_magic ++ ((0 ∷ 0 ∷ 0 ∷ 2 ∷ []) ++ (to_be_bytes n ++ stream)))
      ≡ ok ((n, pack_magic ++ (0 ∷ 0 ∷ 0 ∷ 2 ∷ to_be_bytes n)), stream)
unfolding check_header
check_header-parts n stream h =
    rw
      (
        read_exact-append pack_magic ((0 ∷ 0 ∷ 0 ∷ 2 ∷ []) ++ (to_be_bytes n ++ stream)),
        read_exact-append (0 ∷ 0 ∷ 0 ∷ 2 ∷ []) (to_be_bytes n ++ stream),
        read_exact-append (to_be_bytes n) stream,
      )
      (ap (λ k. ok ((k, pack_magic ++ (0 ∷ 0 ∷ 0 ∷ 2 ∷ to_be_bytes n)), stream))
        (be_value-to_be_bytes n h))

-- `check_header` accepts the header that `encode_header` writes in front of any stream, and gives
-- back the number of objects and the header's bytes.
pub check_header-encode_header :
    (object_number : ℕ) (header stream : Bytes)
    → encode_header object_number ≡ some header
    → check_header (header ++ stream) ≡ ok ((object_number, header), stream)
unfolding encode_header
check_header-encode_header object_number header stream =
    if_elim
      (λ o.
        o ≡ some header → check_header (header ++ stream) ≡ ok ((object_number, header), stream))
      (object_number == 0 || ltb (2 ^ 32 - 1) object_number) (λ refused e. cc)
      (λ accepted e.
        let written : pack_magic ++ (0 ∷ 0 ∷ 0 ∷ 2 ∷ to_be_bytes object_number) ≡ header = cc in
        let word : object_number < 2 ^ 32 = ground arith in
        subst (λ (h : Bytes). check_header (h ++ stream) ≡ ok ((object_number, h), stream)) written
          (check_header-parts object_number stream word))

read_exact-split :
    (n : ℕ) (stream got rest : Bytes)
    → read_exact n stream ≡ ok (got, rest)
    → (stream ≡ got ++ rest) × (length got ≡ n)
unfolding read_exact
read_exact-split n stream got rest =
    if_elim (λ r. r ≡ ok (got, rest) → (stream ≡ got ++ rest) × (length got ≡ n))
      (leb n (length stream))
      (λ fits e.
        let first : take n stream ≡ got = cc in
        let second : drop n stream ≡ rest = cc in
        (
          sym (take-append-drop n stream) ∙ ap₂ ◌++◌ first second,
          omega (arith, leb→le n (length stream) fits, length-take n stream, ap length first),
        ))
      (λ short e. cc)

guard-eq-ok :
    {A : Type 0} (b : Bool) (x : PackError) {r : Result PackError A} {a : A}
    → (if not b then err x else r) ≡ ok a
    → (b ≡ true) × (r ≡ ok a)
guard-eq-ok true x e = (refl, e)
guard-eq-ok false x e = cc

map_err-eq-ok :
    {A : Type 0} (x : PackError) (r : Result IoError A) {a : A}
    → map_err (λ _. x) r ≡ ok a
    → r ≡ ok a
map_err-eq-ok x (ok b) e = cc
map_err-eq-ok x (err y) e = cc

ok-parts :
    {a a' : ℕ} {b b' c c' : Bytes} (r r' : Result PackError ((ℕ × Bytes) × Bytes))
    → r ≡ r'
    → r ≡ ok ((a, b), c)
    → r' ≡ ok ((a', b'), c')
    → (a ≡ a') × (b ≡ b') × (c ≡ c')
ok-parts r r' e p q = (cc, cc, cc)

cut_four : (xs ys : Bytes) → length xs ≡ 4 → (take 4 (xs ++ ys) ≡ xs) × (drop 4 (xs ++ ys) ≡ ys)
cut_four xs ys e =
    subst (λ n. (take n (xs ++ ys) ≡ xs) × (drop n (xs ++ ys) ≡ ys)) e
      (take-append xs ys, drop-append xs ys)

abbrev pub Accepted : Bytes → Bytes → Bytes → ℕ → Type 0
Accepted pack header stream object_number =
    (pack ≡ header ++ stream)
    × (length header ≡ 12)
    × (same_bytes (take 4 header) pack_magic ≡ true)
    × (be_value 0 (take 4 (drop 4 header)) ≡ 2)
    × (be_value 0 (drop 8 header) ≡ object_number)

-- What `check_header` accepts starts with twelve bytes, which it gives back whole: the magic, the
-- version 2 in big-endian order, and the number of objects in it.
pub check_header-split :
    (pack header stream : Bytes) (object_number : ℕ)
    → check_header pack ≡ ok ((object_number, header), stream)
    → Accepted pack header stream object_number
unfolding check_header
check_header-split pack header stream object_number e =
    let ((magic, pack1), r1, e1) =
      >>=-eq-ok (map_err (λ _. reading_magic) (read_exact 4 pack)) _ e in
    let (is_pack, e2) = guard-eq-ok (same_bytes magic pack_magic) (invalid_pack_header magic) e1 in
    let ((version, pack2), r2, e3) =
      >>=-eq-ok (map_err (λ _. reading_version) (read_exact 4 pack1)) _ e2 in
    let (is_two, e4) =
      guard-eq-ok (be_value 0 version == 2) (wrong_version (be_value 0 version)) e3 in
    let ((number, pack3), r3, e5) =
      >>=-eq-ok (map_err (λ _. reading_object_number) (read_exact 4 pack2)) _ e4 in
    let (s1, l1) =
      read_exact-split 4 pack magic pack1 (map_err-eq-ok reading_magic (read_exact 4 pack) r1) in
    let (s2, l2) =
      read_exact-split 4 pack1 version pack2
        (map_err-eq-ok reading_version (read_exact 4 pack1) r2) in
    let (s3, l3) =
      read_exact-split 4 pack2 number pack3
        (map_err-eq-ok reading_object_number (read_exact 4 pack2) r3) in
    let (same_number, same_header, same_stream) =
      ok-parts (ok ((be_value 0 number, magic ++ (version ++ number)), pack3))
        (ok ((object_number, header), stream)) e5 refl refl in
    let (first, behind) = cut_four magic (version ++ number) l1 in
    let (second, third) = cut_four version number l2 in
    let last : drop 8 (magic ++ (version ++ number)) ≡ number =
      drop-add 4 4 8 (magic ++ (version ++ number)) refl ∙ ap (drop 4) behind ∙ third in
    subst (λ h. Accepted pack h stream object_number) same_header
      (
        s1
            ∙ ap (λ p. magic ++ p)
                (s2
                  ∙ ap (λ p. version ++ p) (s3 ∙ ap (λ p. number ++ p) same_stream)
                  ∙ sym (append_assoc version number stream))
            ∙ sym (append_assoc magic (version ++ number) stream),
        omega (
          arith,
          length-append magic (version ++ number),
          length-append version number,
          l1,
          l2,
          l3,
        ),
        ap (λ b. same_bytes b pack_magic) first ∙ is_pack,
        ap (λ b. be_value 0 (take 4 b)) behind
            ∙ ap (be_value 0) second
            ∙ ==→eq (be_value 0 version) 2 is_two,
        ap (be_value 0) last ∙ same_number,
      )
