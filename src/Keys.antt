-- ===== src/Keys.antt =====
-- Key presses: cli/src/internal/ui/keybindings.go. What bubbletea says of a key is data: its name
-- (`msg.String()`), whether its code is that of the space bar, and its printable text.
use nebula_core.Prelude.{Bool, List, [], ◌∷◌, any, if◌then◌else◌}
use nebula_core.Text.{Text, codes, text_eq}

pub record KeyPressMsg : Type 0 where
  pub name : Text
  pub space_code : Bool
  pub text : Text

unfoldable pub is_key : KeyPressMsg → List Text → Bool
unfolding text_eq
is_key msg keys = any (text_eq msg.name) keys

unfoldable pub is_back : KeyPressMsg → Bool
unfolding is_key text_eq
is_back msg = is_key msg (codes "esc" ∷ codes "escape" ∷ codes "ctrl+[" ∷ [])

unfoldable pub is_up : KeyPressMsg → Bool
unfolding is_key text_eq
is_up msg = is_key msg (codes "up" ∷ [])

unfoldable pub is_down : KeyPressMsg → Bool
unfolding is_key text_eq
is_down msg = is_key msg (codes "down" ∷ [])

unfoldable pub is_enter : KeyPressMsg → Bool
unfolding is_key text_eq
is_enter msg = is_key msg (codes "enter" ∷ codes "return" ∷ [])

unfoldable pub is_space : KeyPressMsg → Bool
unfolding is_key text_eq
is_space msg = is_key msg (codes " " ∷ codes "space" ∷ [])

unfoldable pub key_text : KeyPressMsg → Text
key_text msg = if msg.space_code then codes " " else msg.text
