-- ===== src/Convert/Tests.antt =====
-- src/Util.cpp at concrete inputs.
use generic_server.Prelude.{ℕ, ◌≡◌, refl, some, List, [], ◌∷◌}
use generic_server.Prelude.Int.{negsuc}
use generic_server.Convert.Defs.{convert, convert_loop, last_digit}
use generic_server.Convert.RoundTrip.{read_int, read_int-convert}

forty_two : convert (negsuc 41) ≡ some (b'-' ∷ b'4' ∷ b'2' ∷ [])
unfolding convert convert_loop last_digit
forty_two = refl

read_int-convert_example :
    (t : List ℕ) × (convert (negsuc 41) ≡ some t) × (read_int t ≡ some (negsuc 41))
read_int-convert_example = read_int-convert (negsuc 41)
