-- ===== src/Bytes.antt =====
-- The big- and little-endian readers and writers at the top of platform/safe3/usb_supervisor.c (and,
-- word for word, of platform/raspberry-pi/usb_functionfs.c). A byte is a number below 256, a buffer
-- is the list of its bytes. The shifted bytes do not overlap, so `|` is `+`.
use virtual_trezor.Prelude.{ℕ, ◌+◌, ◌*◌, ◌/◌, ◌%◌, ◌^◌, ◌≡◌, List, [], ◌∷◌, ◌++◌, get_or, arith}

-- bytes[i]; the callers have checked that the byte is there.
abbrev pub byte : List ℕ → ℕ → ℕ
byte bytes i = get_or bytes i 0

unfoldable pub be16 : List ℕ → ℕ → ℕ
be16 bytes at = byte bytes at * 256 + byte bytes (at + 1)

unfoldable pub be32 : List ℕ → ℕ → ℕ
be32 bytes at =
    byte bytes at * 16777216
    + byte bytes (at + 1) * 65536
    + byte bytes (at + 2) * 256
    + byte bytes (at + 3)

unfoldable pub le16 : List ℕ → ℕ → ℕ
le16 bytes at = byte bytes at + byte bytes (at + 1) * 256

unfoldable pub put_be16 : ℕ → List ℕ
put_be16 value = (value / 256 % 256) ∷ (value % 256) ∷ []

unfoldable pub put_be32 : ℕ → List ℕ
put_be32 value =
    (value / 16777216 % 256) ∷ (value / 65536 % 256) ∷ (value / 256 % 256) ∷ (value % 256) ∷ []

-- A number written by `put_be16` reads back modulo 2 ^ 16, whatever follows it.
pub be16-put_be16 : (value : ℕ) (rest : List ℕ) → be16 (put_be16 value ++ rest) 0 ≡ value % 2 ^ 16
unfolding be16 put_be16
be16-put_be16 value rest = omega arith

-- A number written by `put_be32` reads back modulo 2 ^ 32, whatever follows it.
pub be32-put_be32 : (value : ℕ) (rest : List ℕ) → be32 (put_be32 value ++ rest) 0 ≡ value % 2 ^ 32
unfolding be32 put_be32
be32-put_be32 value rest = omega arith
