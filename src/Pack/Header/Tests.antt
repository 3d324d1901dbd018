-- ===== src/Pack/Header/Tests.antt =====
-- Runs of the pack header's codec, and the theorems at them.
use git_internal.Base.{[], ◌∷◌, ◌++◌, Bytes, some, none, ok, ◌≡◌, refl}
use git_internal.Delta.Decode.{read_exact}
use git_internal.Pack.Header.{encode_header, check_header}
use git_internal.Pack.Header.RoundTrip.{check_header-encode_header, check_header-split, Accepted}

abbrev three_objects : Bytes
three_objects = 80 ∷ 65 ∷ 67 ∷ 75 ∷ 0 ∷ 0 ∷ 0 ∷ 2 ∷ 0 ∷ 0 ∷ 0 ∷ 3 ∷ []

encode_header_test : encode_header 3 ≡ some three_objects
unfolding encode_header
encode_header_test = refl

encode_header_refused : encode_header 0 ≡ none
unfolding encode_header
encode_header_refused = refl

check_header_test : check_header (three_objects ++ 9 ∷ []) ≡ ok ((3, three_objects), 9 ∷ [])
unfolding check_header read_exact
check_header_test = refl

check_header-encode_header_example :
    check_header (three_objects ++ 9 ∷ []) ≡ ok ((3, three_objects), 9 ∷ [])
check_header-encode_header_example =
    check_header-encode_header 3 three_objects (9 ∷ []) encode_header_test

check_header-split_example : Accepted (three_objects ++ 9 ∷ []) three_objects (9 ∷ []) 3
check_header-split_example =
    check_header-split (three_objects ++ 9 ∷ []) three_objects (9 ∷ []) 3 check_header_test
