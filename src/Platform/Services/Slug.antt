-- ===== src/Platform/Services/Slug.antt =====
-- The pattern `SLUG_RE` and the reserved names of services.py.
use model_passport.Prelude.{
  leb, ◌==◌, length, ℕ, String, Bool, true, false, ◌&&◌, ◌||◌, List, [], ◌∷◌,
}
use Prim.Native.Char.{code}

-- The code points of a text.
unfoldable pub characters : String → List ℕ
characters String.[] = []
characters (String.◌∷◌ c s) = code c ∷ characters s

-- `[a-z0-9]`
unfoldable pub slug_end : ℕ → Bool
slug_end c = (leb b'a' c && leb c b'z') || (leb b'0' c && leb c b'9')

-- `[a-z0-9-]*[a-z0-9]`, or nothing.
unfoldable pub slug_rest : List ℕ → Bool
unfolding slug_end
slug_rest [] = true
slug_rest (c ∷ []) = slug_end c
slug_rest (c ∷ d ∷ rest) = (slug_end c || c == b'-') && slug_rest (d ∷ rest)

-- `SLUG_RE.fullmatch`: at most 61 characters between the first and the last.
unfoldable pub valid_slug : List ℕ → Bool
unfolding slug_rest
valid_slug [] = false
valid_slug (c ∷ rest) = slug_end c && (slug_rest rest && leb (length rest) 62)

abbrev pub reserved_slugs : List String
reserved_slugs = "www" ∷ "api" ∷ "admin" ∷ "app" ∷ "platform" ∷ "static" ∷ "status" ∷ []
