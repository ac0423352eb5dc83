-- ===== src/UnixServer/Tests.antt =====
-- Examples for the server of local clients.
use el_cache.Common.{ℕ, ◌+◌, ◌≡◌, refl, List, [], ◌∷◌, arith, ℕ_discrete, u32_mod, leb}
use mathlib.Core.List.{List-discrete}
use el_cache.Wire.{number_at, bytes_at, decode_le}
use el_cache.UnixServer.{Server, handle_get}
use el_cache.UnixServer.Faults.{faults, handle_get-number_at}

abbrev same_bytes : Discrete (List ℕ)
same_bytes = List-discrete ℕ_discrete

abbrev no_values : Server
no_values = record { values = []; sparse = [] }

-- A key length of 2 ^ 32 - 1.
abbrev wrapping : List ℕ
wrapping = 255 ∷ 255 ∷ 255 ∷ 255 ∷ 0 ∷ 0 ∷ []

handle_get-number_at_example :
    faults (handle_get same_bytes no_values wrapping) ≡ leb u32_mod (0xFFFFFFFF + 6)
unfolding number_at bytes_at decode_le
handle_get-number_at_example =
    handle_get-number_at same_bytes no_values wrapping 0xFFFFFFFF refl (omega arith) (omega arith)
      (omega arith)
