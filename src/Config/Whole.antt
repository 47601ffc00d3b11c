-- ===== src/Config/Whole.antt =====
-- The configuration file after Save of internal/config/config.go.
use virtual_private_node.Base.{ℕ, ◌≡◌, ◌⊎◌, Result, ok}
use virtual_private_node.Base.Text.{Text}
use virtual_private_node.Lifecycle.Objects.{Object, present}
use virtual_private_node.Config.{StoreError}
use virtual_private_node.Config.Save.{published}

-- The file is the old one, or the whole of the new one.
abbrev OldOrNew : ℕ → ℕ → Result StoreError Text → Object → Object → Type 0
OldOrNew uid gid written old new =
    (new ≡ old)
    ⊎ ((content : Text) × (written ≡ ok content) × (new ≡ present (published uid gid content)))
