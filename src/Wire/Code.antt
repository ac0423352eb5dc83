-- ===== src/Wire/Code.antt =====
-- The codes of `MessageType` (include/elcache/unix_server.hpp).
use el_cache.Common.{ℕ}

abbrev pub get : ℕ
get = 0x0100

abbrev pub get_response : ℕ
get_response = 0x0101

abbrev pub put : ℕ
put = 0x0102

abbrev pub put_response : ℕ
put_response = 0x0103

abbrev pub delete : ℕ
delete = 0x0104

abbrev pub delete_response : ℕ
delete_response = 0x0105

abbrev pub create_sparse : ℕ
create_sparse = 0x0108

abbrev pub create_sparse_response : ℕ
create_sparse_response = 0x0109

abbrev pub write_range : ℕ
write_range = 0x010A

abbrev pub write_range_response : ℕ
write_range_response = 0x010B

abbrev pub finalize : ℕ
finalize = 0x010C

abbrev pub finalize_response : ℕ
finalize_response = 0x010D
