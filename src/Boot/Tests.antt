-- ===== src/Boot/Tests.antt =====
-- The name of a log file with a time in it.
use backd.Base.{◌≡◌, ◌++◌, [], ◌∷◌, Bytes, ok}
use backd.Boot.{Sanitized, sanitize_filename, end_of_text, and_byte, sanitize-Sanitized}

-- "1:2", and a byte that the block has behind its terminator
abbrev timed_name : Bytes
timed_name = b'1' ∷ b':' ∷ b'2' ∷ []

sanitize-Sanitized_example :
    (t : Bytes) × Sanitized timed_name t
    × (sanitize_filename (timed_name ++ 0 ∷ 9 ∷ []) ≡ ok (t ++ 0 ∷ 9 ∷ []))
sanitize-Sanitized_example =
    sanitize-Sanitized timed_name (9 ∷ []) (and_byte (and_byte (and_byte end_of_text)))
