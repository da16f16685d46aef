-- ===== src/Base/Text.antt =====
-- Go's `strings` functions on native texts.
use Prim.Native.Char.{Char}
use Prim.Native.String.{String}
use mathlib.Core.Bool.{Bool, true, false, ◌&&◌, ◌||◌}
use text.Mathlib.Text.{◌==◌}
use mongodb_atlas_kubernetes.Base.Tests.{if◌then◌else◌}
pub use text.Mathlib.Text.{◌==◌ as str_eq}
pub use text.Mathlib.TextPositions.{eq_refl}
pub use Prim.Native.String.{◌++◌ as concat}

-- `len(s) == 0`
abbrev pub is_empty_text : String → Bool
is_empty_text String.[] = true
is_empty_text (String.◌∷◌ c s) = false

-- `strings.HasSuffix`
abbrev pub has_suffix : String → String → Bool
has_suffix String.[] t = String.[] == t
has_suffix (String.◌∷◌ c s) t = String.◌∷◌ c s == t || has_suffix s t

-- Is the character one of the cutset?
abbrev pub in_cutset : Char → String → Bool
in_cutset c String.[] = false
in_cutset c (String.◌∷◌ d s) = String.◌∷◌ c String.[] == String.◌∷◌ d String.[] || in_cutset c s

-- `strings.TrimRight`: drops trailing characters as long as they are of the cutset.
abbrev pub trim_right : String → String → String
trim_right String.[] cutset = String.[]
trim_right (String.◌∷◌ c s) cutset =
    let rest = trim_right s cutset in
    if is_empty_text rest && in_cutset c cutset then String.[] else String.◌∷◌ c rest
