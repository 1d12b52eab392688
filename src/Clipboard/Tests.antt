-- ===== src/Clipboard/Tests.antt =====
-- The theorem about the clipboard at a concrete text.
use quillos.Prelude.{◌≡◌, some, false, [], ◌∷◌, arith}
use quillos.Clipboard.{init, set_bytes, empty}
use quillos.Clipboard.Bounds.{IsValid, text, init-IsValid, set_bytes_lem}

set_bytes_lem_example :
    IsValid (set_bytes init (some (b'h' ∷ b'i' ∷ [])) 2)
    × (text (set_bytes init (some (b'h' ∷ b'i' ∷ [])) 2) ≡ b'h' ∷ b'i' ∷ [])
    × (empty (set_bytes init (some (b'h' ∷ b'i' ∷ [])) 2) ≡ false)
set_bytes_lem_example = set_bytes_lem init (b'h' ∷ b'i' ∷ []) 2 init-IsValid (omega arith)
