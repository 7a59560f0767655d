-- ===== src/Bootstrap.antt =====
-- internal/bootstrap/template.go: `SanitizeLabel`, and below it the environment and the polling of
-- health.go. A rune that is not ASCII is dropped as its bytes are.
pub mod Labels
pub mod Health
pub mod Env
mod Examples
use gpuscale.Prelude.{
  ℕ, Bool, ◌&&◌, ◌||◌, leb, ltb, ◌==◌, if◌then◌else◌, [], ◌∷◌, Text, take, length,
}

-- The characters that a label may hold.
unfoldable pub is_label_byte : ℕ → Bool
is_label_byte c =
    (leb b'a' c && leb c b'z')
    || ((leb b'A' c && leb c b'Z')
        || ((leb b'0' c && leb c b'9') || (c == b'-' || (c == b'_' || c == b'.'))))

-- The loop over the string.
unfoldable pub label_bytes : Text → Text
unfolding is_label_byte
label_bytes [] = []
label_bytes (c ∷ s) =
    let rest = label_bytes s in
    if is_label_byte c then c ∷ rest else if c == b' ' then b'-' ∷ rest else rest

unfoldable pub sanitize_label : Text → Text
unfolding label_bytes
sanitize_label s =
    let label = label_bytes s in if ltb 63 (length label) then take 63 label else label
