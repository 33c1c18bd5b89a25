-- ===== src/Base64/Text.antt =====
-- The text of RFC 4648 in plain arithmetic, three bytes at a time.
use impact_socket_set.Base.{ℕ, ◌+◌, ◌*◌, ◌/◌, ◌%◌, [], ◌∷◌, ◌++◌, Bytes}
use impact_socket_set.Base64.{alphabet}

-- The symbols of one group: six bits each, the highest first.
abbrev pub quad : ℕ → ℕ → ℕ → Bytes
quad a b c =
    alphabet (a / 4)
    ∷ alphabet (a % 4 * 16 + b / 16)
    ∷ alphabet (b % 16 * 4 + c / 64)
    ∷ alphabet (c % 64)
    ∷ []

abbrev pub text_of : Bytes → Bytes
text_of [] = []
text_of (a ∷ []) = alphabet (a / 4) ∷ alphabet (a % 4 * 16) ∷ b'=' ∷ b'=' ∷ []
text_of (a ∷ b ∷ []) =
    alphabet (a / 4) ∷ alphabet (a % 4 * 16 + b / 16) ∷ alphabet (b % 16 * 4) ∷ b'=' ∷ []
text_of (a ∷ b ∷ c ∷ rest) = quad a b c ++ text_of rest
