-- ===== src/Prelude/Text.antt =====
-- Texts as byte lists, and what the program uses of Go's `strings` and `bytes`. Bytes above 127 are
-- ordinary bytes here: `TrimSpace` and `ToLower` act on ASCII.
mod Equality
unfoldable pub use Equality.*
use Prim.Native.Char.{code}
use Prim.Native.Nat.{ℕ, ◌+◌}
use Prim.Native.String.{String}
use mathlib.Core.Bool.{Bool, true, false, ◌&&◌, ◌||◌}
use mathlib.Core.List.{List, [], ◌∷◌, ◌++◌, map, reverse}
use mathlib.Core.Option.{Option, none, some}
use mathlib.Core.Path.{◌≡◌, refl}
use native.Mathlib.Omega.{arith}
use codex_auth_broker.Prelude.Tests.{leb, ltb, ◌==◌, if◌then◌else◌}

-- The code points of a text: its bytes, if it is ASCII.
abbrev pub codes : String → Bytes
codes String.[] = []
codes (String.◌∷◌ c s) = code c ∷ codes s

-- `\t`, `\n`, `\v`, `\f`, `\r` and the blank.
unfoldable pub is_space : ℕ → Bool
is_space c = (leb 9 c && leb c 13) || c == 32

unfoldable pub trim_left : Bytes → Bytes
unfolding is_space
trim_left [] = []
trim_left (c ∷ cs) = if is_space c then trim_left cs else c ∷ cs

-- strings.TrimSpace
unfoldable pub trim_space : Bytes → Bytes
unfolding trim_left
trim_space s = reverse (trim_left (reverse (trim_left s)))

unfoldable pub lower_byte : ℕ → ℕ
lower_byte c = if leb b'A' c && leb c b'Z' then c + 32 else c

-- strings.ToLower
unfoldable pub to_lower : Bytes → Bytes
unfolding lower_byte
to_lower s = map lower_byte s

-- strings.CutPrefix: the rest behind `p`, if the text begins with it.
unfoldable pub cut_prefix : Bytes → Bytes → Option Bytes
cut_prefix [] s = some s
cut_prefix (p ∷ ps) [] = none
cut_prefix (p ∷ ps) (c ∷ cs) = if p == c then cut_prefix ps cs else none

abbrev pub is_some {ℓ} : {A : Type ℓ} → Option A → Bool
is_some none = false
is_some (some _) = true

abbrev pub has_prefix : Bytes → Bytes → Bool
has_prefix p s = is_some (cut_prefix p s)

-- strings.Contains
unfoldable pub contains : Bytes → Bytes → Bool
unfolding cut_prefix
contains p [] = has_prefix p []
contains p (c ∷ cs) = has_prefix p (c ∷ cs) || contains p cs

-- The text begins with `p` exactly if it is `p` followed by the rest.
pub cut_prefix-append : (p s : Bytes) → cut_prefix p (p ++ s) ≡ some s
unfolding cut_prefix
cut_prefix-append [] s = refl
cut_prefix-append (p ∷ ps) s = ground (arith, cut_prefix-append ps s)

pub append-cut_prefix : (p s r : Bytes) → cut_prefix p s ≡ some r → s ≡ p ++ r
unfolding cut_prefix
append-cut_prefix [] s r h = ground arith
append-cut_prefix (p ∷ ps) [] r h = cc
append-cut_prefix (p ∷ ps) (c ∷ cs) r h = ground (arith, append-cut_prefix ps cs r)
