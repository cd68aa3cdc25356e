-- ===== src/Text.antt =====
-- C strings: a `char*` is null or the bytes of its buffer before the terminator that ends it.
use Prim.Native.Char.{code}
use Prim.Native.String.{String}
use epass_usb_responder.Prelude.{
  ℕ, ◌<◌, Bool, true, false, Option, none, some, List, [], ◌∷◌, ◌==◌, if◌then◌else◌, All,
}

-- The string that begins at the start of a buffer: the bytes before the first NUL.
abbrev pub c_string : List ℕ → List ℕ
c_string [] = []
c_string (b ∷ bs) = if b == 0 then [] else b ∷ c_string bs

-- `p ? p : ""`
abbrev pub text : Option (List ℕ) → List ℕ
text none = []
text (some p) = c_string p

-- `strcmp(a, b) == 0`
unfoldable pub same_string : List ℕ → List ℕ → Bool
same_string [] [] = true
same_string [] (y ∷ ys) = false
same_string (x ∷ xs) [] = false
same_string (x ∷ xs) (y ∷ ys) = if x == y then same_string xs ys else false

abbrev pub IsText : List ℕ → Type 0
IsText = All (λ b. (0 < b) × (b < 256))

-- The bytes of a literal.
abbrev pub codes : String → List ℕ
codes String.[] = []
codes (String.◌∷◌ c s) = code c ∷ codes s
