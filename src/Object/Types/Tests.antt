-- ===== src/Object/Types/Tests.antt =====
-- The identifiers of some object types.
use git_internal.Base.{some, ◌≡◌, ◌↔◌}
use git_internal.Object.Types.{run, blob, to_u8, from_u8, to_pack_type_u8, from_pack_type_u8}
use git_internal.Object.Types.RoundTrip.{from_u8_iff, from_pack_type_u8_iff}

from_u8_iff_example : (from_u8 14 ≡ some run) ↔ (to_u8 run ≡ 14)
from_u8_iff_example = from_u8_iff run 14

from_pack_type_u8_iff_example : (from_pack_type_u8 3 ≡ some blob) ↔ (to_pack_type_u8 blob ≡ some 3)
from_pack_type_u8_iff_example = from_pack_type_u8_iff blob 3
