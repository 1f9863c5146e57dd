-- ===== src/Engine/Plan/Errors.antt =====
-- crates/pbsgui-engine/src/sql/plan.rs: the error of a log backup that finds no chain.
use pbsgui.Base.{Bool, Text, [], false, true, ◌&&◌, ◌==◌, ◌||◌, ◌∷◌}

-- `4214`, and `no current database backup`.
abbrev pub error_number : Text
error_number = b'4' ∷ b'2' ∷ b'1' ∷ b'4' ∷ []

abbrev error_text : Text
error_text =
    b'n' ∷ b'o' ∷ b' ' ∷ b'c' ∷ b'u' ∷ b'r' ∷ b'r' ∷ b'e' ∷ b'n' ∷ b't' ∷ b' ' ∷ b'd' ∷ b'a' ∷ b't'
    ∷ b'a' ∷ b'b' ∷ b'a' ∷ b's' ∷ b'e' ∷ b' ' ∷ b'b' ∷ b'a' ∷ b'c' ∷ b'k' ∷ b'u' ∷ b'p' ∷ []

unfoldable pub starts_with : Text → Text → Bool
starts_with [] s = true
starts_with (x ∷ p) [] = false
starts_with (x ∷ p) (y ∷ s) = (x == y) && starts_with p s

-- `str::contains`
unfoldable pub contains : Text → Text → Bool
unfolding starts_with
contains p [] = starts_with p []
contains p (y ∷ s) = starts_with p (y ∷ s) || contains p s

unfoldable pub is_no_chain_error : Text → Bool
unfolding contains
is_no_chain_error message = contains error_number message || contains error_text message
