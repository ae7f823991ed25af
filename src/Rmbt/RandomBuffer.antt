-- ===== src/Rmbt/RandomBuffer.antt =====
-- The random bytes that the older server sends (src/tokio_server/utils/random_buffer.rs).
use nettest.Common.{
  ℕ, zero, suc, ◌+◌, ◌*◌, ◌%◌, ◌==◌, List, [], ◌∷◌, leb, if◌then◌else◌, Bytes, take, drop, length,
  ◌≡◌,
}
use nettest.Chunks.{set_last}

abbrev pub random_size : ℕ
random_size = 100 * 1024 * 1024

-- The buffer that `init_random_buffer` fills.
pub record RandomBuffer : Type 0 where
  pub contents : Bytes
  pub length-contents : length contents ≡ random_size

-- `get_random_slice`: the bytes for a buffer of a size, and the next offset.
unfoldable pub get_random_slice : RandomBuffer → ℕ → ℕ → Bytes × ℕ
get_random_slice random size offset =
    let start = offset % random_size in
    if leb (start + size) random_size
    then (take size (drop start random.contents), start + random_size)
    else (take size random.contents, random_size)

-- `generate_chunks` of the handlers: so many chunks are left, and the last of them ends in `last`.
unfoldable pub generate_chunks : RandomBuffer → ℕ → ℕ → ℕ → ℕ → List Bytes
generate_chunks random last size zero offset = []
generate_chunks random last size (suc n) offset =
    let (buf, next) = get_random_slice random size offset in
    set_last size (if n == 0 then last else 0x00) buf ∷ generate_chunks random last size n next
