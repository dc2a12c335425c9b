-- ===== src/Migrations/Url.antt =====
-- check_git_url of sandbox/migrations/source.py, over the result of `urllib.parse.urlparse`
use text.Mathlib.Text.{◌==◌ as str_eq}
use goga_tool_pybuggy.Prelude.{
  String, Bool, not, ◌&&◌, ◌||◌, List, [], ◌∷◌, Result, Done, ◌>>◌, raise_if, any, ◌==◌,
}
use goga_tool_pybuggy.Prelude.Text.{codes}

pub record Url : Type 0 where
  pub scheme : String
  pub netloc : String
  pub has_password : Bool

pub data UrlError : Type 0 where
  disallowed_scheme : String → UrlError
  embedded_credentials : UrlError

abbrev pub allowed_schemes : List String
allowed_schemes = "git" ∷ "http" ∷ "https" ∷ "ssh" ∷ []

unfoldable pub check_git_url : Url → Result UrlError Done
check_git_url parsed = do
  raise_if (not (any (λ s. str_eq s parsed.scheme) allowed_schemes))
      (disallowed_scheme parsed.scheme)
  raise_if
      (parsed.has_password
        || any (λ c. c == 64) (codes parsed.netloc) && not (str_eq parsed.scheme "ssh"))
      embedded_credentials
