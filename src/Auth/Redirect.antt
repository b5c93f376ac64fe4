-- ===== src/Auth/Redirect.antt =====
-- internal/auth/auth.go normalizeRedirectPath, and internal/api/auth.go sanitizeRedirectPath.
use Prim.Native.String as NativeString
use Prim.Native.Char.{code}
use hookwatch.Prelude.{Bool, String, false, if◌then◌else◌, nat_eq, not, string_eq, trim_space, ◌==◌}

-- What stands after the first slash is not another one.
abbrev pub second_slash : String → Bool
second_slash NativeString.[] = false
second_slash (NativeString.◌∷◌ c s) = code c == b'/'

unfoldable pub local_path : String → String
local_path NativeString.[] = "/"
local_path (NativeString.◌∷◌ c s) =
    if not (code c == b'/') then "/" else if second_slash s then "/" else NativeString.◌∷◌ c s

unfoldable pub normalize_redirect_path : String → String
unfolding local_path
normalize_redirect_path raw = local_path (trim_space raw)
