-- ===== src/Url/Bytes.antt =====
-- Bytes, hexadecimal digits, and the bytes that an escaped path may hold.
use atrium_core.Base.{ℕ, ◌+◌, ◌*◌, ◌<◌, ◌≡◌, ◌≢◌, true, arith}
use atrium_core.Url.{is_hex, unhex, upper_hex, valid_byte}

abbrev pub IsByte : ℕ → Type 0
IsByte c = c < 256

pub is_hex-upper_hex : (d : ℕ) → d < 16 → is_hex (upper_hex d) ≡ true
unfolding is_hex upper_hex
is_hex-upper_hex d h = ground arith

pub unhex-upper_hex : (d : ℕ) → d < 16 → unhex (upper_hex d) ≡ d
unfolding unhex upper_hex
unhex-upper_hex d h = ground arith

pub unhex_pair-IsByte : (d e : ℕ) → is_hex d ≡ true → is_hex e ≡ true → unhex d * 16 + unhex e < 256
unfolding is_hex unhex
unhex_pair-IsByte d e h k = ground arith

-- A byte of an escaped path: printable ASCII, and no quote, "#", "?", "<", ">", "\", "^", "`", "{",
-- "|" or "}".
abbrev pub IsPathByte : ℕ → Type 0
IsPathByte c =
    (32 < c)
    × (c < 127)
    × (c ≢ b'#')
    × (c ≢ b'?')
    × (c ≢ b'\\')
    × (c ≢ b'"')
    × (c ≢ b'<')
    × (c ≢ b'>')

pub valid_byte-IsPathByte : (c : ℕ) → valid_byte c ≡ true → IsPathByte c
unfolding valid_byte
valid_byte-IsPathByte c h = ground arith
