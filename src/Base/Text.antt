-- ===== src/Base/Text.antt =====
-- The `std::string` operations that the broker uses, over bytes.
use Prim.Native.Char.{code}
use Prim.Native.Nat.{ℕ}
use Prim.Native.String.{String}
use mathlib.Core.Bool.{Bool, true, false, ◌&&◌, ◌||◌}
use mathlib.Core.List.{List, [], ◌∷◌}
use mathlib.Core.Option.{Option, none, some}
use mathlib.Core.Option
use tinymq_broker.Base.Tests.{Bytes, ltb, nat_beq, if◌then◌else◌}

-- The bytes of an ASCII literal.
abbrev pub codes : String → Bytes
codes String.[] = []
codes (String.◌∷◌ c s) = code c ∷ codes s

-- `s.empty()`.
abbrev pub is_empty {ℓ} : {A : Type ℓ} → List A → Bool
is_empty [] = true
is_empty (x ∷ xs) = false

-- `s.compare(0, p.size(), p) == 0`, false where `s` is shorter.
unfoldable pub starts_with : Bytes → Bytes → Bool
starts_with [] s = true
starts_with (p ∷ ps) [] = false
starts_with (p ∷ ps) (c ∷ s) = nat_beq p c && starts_with ps s

-- `s.find(p) != npos`.
unfoldable pub contains_text : Bytes → Bytes → Bool
unfolding starts_with
contains_text p [] = starts_with p []
contains_text p (c ∷ s) = starts_with p (c ∷ s) || contains_text p s

-- `s.find(c)` with the text before the first `c` and the text after it; `none` is `npos`.
unfoldable pub split_at : ℕ → Bytes → Option (Bytes × Bytes)
split_at c [] = none
split_at c (x ∷ s) =
    let rest = split_at c s in
    if nat_beq x c then some ([], s) else Option.map (λ (p : Bytes × Bytes). (x ∷ p.0, p.1)) rest

-- `isdigit`.
abbrev pub is_digit : ℕ → Bool
is_digit c = if ltb c 48 then false else if ltb 57 c then false else true
