-- ===== src/Matchcrest/Url.antt =====
-- url_is_valid, url_is_live, join and date_to_timestamp of matchcrest/utils/utils.py
use goga_tool_pybuggy.Prelude.{
  Bool, true, false, not, ◌&&◌, ◌||◌, Option, none, some, List, [], ◌∷◌, ◌++◌, Result, ok, err,
  ◌>>=◌, if◌then◌else◌, leb, any, is_empty, ◌==◌,
}
use goga_tool_pybuggy.Prelude.Text.{Text, codes, eq_text, ends_with}
use goga_tool_pybuggy.Matchcrest.Python.{Python, Raised, type_error, value_error}

-- `part.rstrip("/")`
unfoldable pub strip_slashes : Text → Text
strip_slashes [] = []
strip_slashes (c ∷ s) =
    let rest = strip_slashes s in if c == 47 && is_empty rest then [] else c ∷ rest

abbrev pub last_part : Text → List Text → Text
last_part part [] = part
last_part part (next ∷ parts) = last_part next parts

unfoldable pub join_stripped : List Text → Text
unfolding strip_slashes
join_stripped [] = []
join_stripped (part ∷ parts) = strip_slashes part ++ join_stripped parts

-- `join(*parts)`, with at least one part
unfoldable pub join : Text → List Text → Text
unfolding join_stripped ends_with
join part parts =
    join_stripped (part ∷ parts)
    ++ (if ends_with (last_part part parts) (codes "/") then codes "/" else [])

abbrev pub default_protocols : List Text
default_protocols = codes "https" ∷ codes "http" ∷ []

-- `allowed_protocols or ["https", "http"]`
abbrev pub protocols_or_default : Option (List Text) → List Text
protocols_or_default none = default_protocols
protocols_or_default (some []) = default_protocols
protocols_or_default (some (p ∷ ps)) = p ∷ ps

abbrev pub first_protocol : List Text → Text
first_protocol [] = []
first_protocol (p ∷ ps) = p

module _ (py : Python) where
  open py use {Object}

  unfoldable pub url_is_live : Text → Result Raised Bool
  url_is_live url = do status ← py.get_status url; ok (leb 200 status && leb status 299)

  -- `not (is_live and not url_is_live(join(protocol, url)))`
  live_check : Bool → Text → Option Text → Result Raised Bool
  unfolding url_is_live join
  live_check false protocol url = ok true
  live_check true protocol none = err type_error
  live_check true protocol (some url) = url_is_live (join protocol (url ∷ []))

  unfoldable pub url_is_valid : Object → Bool → Option (List Text) → Result Raised Bool
  unfolding live_check eq_text
  url_is_valid url is_live allowed = do
    let protocols = protocols_or_default allowed
    link ← py.urlparse url
    let is_relative = is_empty link.scheme
    let allows = not is_relative && any (eq_text link.scheme) protocols || true
    let protocol = if is_relative then first_protocol protocols ++ codes "://" else []
    if allows && not (is_empty link.netloc)
        then live_check is_live protocol (py.as_text url)
        else ok false

  unfoldable pub date_to_timestamp : Object → Result Raised Object
  date_to_timestamp value =
      if py.is_datetime value
      then py.datetime_timestamp value
      else if py.is_date value
      then py.iso_timestamp value
      else err value_error
