-- ===== src/Proto/Caps.antt =====
-- crates/fluxsync-proto/src/lib.rs: the capabilities that both sides of a link know.
use package.text.Mathlib.Text.{◌==◌ as str_eq}
use fluxsync.Base.{Bool, List, [], ◌∷◌, String, any, retain}

abbrev pub cap_file : String
cap_file = "file-1"

abbrev pub supported_caps : List String
supported_caps = "core-1" ∷ "resync-1" ∷ "sas-confirm" ∷ "verify-restart" ∷ cap_file ∷ []

abbrev pub is_supported : String → Bool
is_supported c = any (λ s. str_eq s c) supported_caps

unfoldable pub negotiate_caps : List String → List String
negotiate_caps peer_caps = retain is_supported peer_caps
