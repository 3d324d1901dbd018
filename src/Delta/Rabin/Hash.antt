-- ===== src/Delta/Rabin/Hash.antt =====
-- The rolling hash of the Rabin encoder: one byte in, by the table of tables.rs.
pub mod Range
use git_internal.Base.{
  ℕ, ◌+◌, ◌*◌, ◌/◌, ◌%◌, ◌^◌, bit_or, bit_xor, [], ◌∷◌, Bytes, get_or, take, drop,
}
use git_internal.Delta.Rabin.Tables.{rabin_window, rabin_shift, table_t}

abbrev pub u32 : ℕ → ℕ
u32 n = n % 2 ^ 32

-- `((val << 8) | b as u32) ^ T[(val >> RABIN_SHIFT) as usize]`
unfoldable pub push_hash : ℕ → ℕ → ℕ
unfolding table_t
push_hash val b = bit_xor (bit_or (u32 (val * 2 ^ 8)) b) (get_or table_t (val / 2 ^ rabin_shift) 0)

unfoldable pub hash_bytes : ℕ → Bytes → ℕ
unfolding push_hash
hash_bytes val [] = val
hash_bytes val (b ∷ bs) = hash_bytes (push_hash val b) bs

-- The fingerprint of the window that starts at `window_start`.
unfoldable pub fingerprint : Bytes → ℕ → ℕ
unfolding hash_bytes
fingerprint source window_start = hash_bytes 0 (take rabin_window (drop window_start source))
