-- ===== src/Value/Convert/RoundTrip.antt =====
-- INT64 values printed as text and read back.
use go_zetasqlite.Prelude.{◌≡◌, ◌≢◌, refl, [], ◌∷◌, false}
use go_zetasqlite.Prelude.Int.{ℤ}
use go_zetasqlite.Prelude.Bytes.{Bytes}
use go_zetasqlite.Int64.{IsInt64}
use go_zetasqlite.Result.{ok, ◌>>=◌}
use go_zetasqlite.Strconv.{format_int, parse_int_10, contains_0x}
use go_zetasqlite.Strconv.RoundTrip.{parse-format_int, contains_0x-format_int, format_int-ne-nil}
use go_zetasqlite.Value.{int, string, bytes}
use go_zetasqlite.Value.Convert.{to_int64, to_string, to_bytes, string_to_int64, bytes_to_int64}

string-read : (s : Bytes) → s ≢ [] → contains_0x s ≡ false → string_to_int64 s ≡ parse_int_10 s
unfolding string_to_int64
string-read [] nonempty h = absurd (nonempty refl)
string-read (c ∷ s) nonempty h = rw h

bytes-read : (s : Bytes) → s ≢ [] → bytes_to_int64 s ≡ parse_int_10 s
unfolding bytes_to_int64
bytes-read [] nonempty = absurd (nonempty refl)
bytes-read (c ∷ s) nonempty = refl

module _ (quote : Bytes → Bytes) where
  -- An INT64 value keeps its number when it is converted to STRING, or to BYTES, and back.
  pub to_int64-to_string :
      (z : ℤ)
      → IsInt64 z
      → ((to_string quote (int z) >>= λ s. to_int64 (string s)) ≡ ok z)
        × ((to_bytes quote (int z) >>= λ s. to_int64 (bytes s)) ≡ ok z)
  unfolding to_string to_bytes to_int64
  to_int64-to_string z h = (
    rw (
      string-read (format_int z) (format_int-ne-nil z) (contains_0x-format_int z),
      parse-format_int z h,
    ),
    rw (bytes-read (format_int z) (format_int-ne-nil z), parse-format_int z h),
  )
