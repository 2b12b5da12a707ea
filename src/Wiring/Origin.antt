-- ===== src/Wiring/Origin.antt =====
-- The origins that cmd/main.go allows, with `strings.HasPrefix` and `strings.HasSuffix`.
use Prim.Native.Char.{code}
use Prim.Native.String.{String, [], ◌∷◌}
use cex_go.Prelude.{Bool, true, false, ◌==◌, ◌&&◌, ◌||◌, str_eq, if◌then◌else◌}

unfoldable pub has_prefix : String → String → Bool
has_prefix s [] = true
has_prefix [] (d ∷ p) = false
has_prefix (c ∷ s) (d ∷ p) = let rest = has_prefix s p in code c == code d && rest

unfoldable pub has_suffix : String → String → Bool
has_suffix [] p = str_eq [] p
has_suffix (c ∷ s) p = let rest = has_suffix s p in str_eq (c ∷ s) p || rest

-- `AllowOriginFunc`
unfoldable pub allow_origin : String → Bool
allow_origin origin =
    if str_eq origin ""
    then true
    else if str_eq origin "http://localhost:8080" || str_eq origin "http://localhost:5173"
    then true
    else has_prefix origin "https://"
      && (str_eq origin "https://blink-trade-hub.lovable.app" || has_suffix origin ".lovable.app")
