-- ===== src/Server/Origins.antt =====
-- `newCrossOriginProtection` of internal/server/server.go, and the check of Go's
-- `http.CrossOriginProtection` that it sets up. `parse` is `url.Parse`: the scheme, the host, and the
-- path, query and fragment in one text.
use calendar_digest.Prelude.{
  Bool, true, false, not, ◌&&◌, ◌||◌, any, if◌then◌else◌, List, [], ◌∷◌, Option, none, some,
}
use calendar_digest.Prelude.Chars.{Text, codes, text_eq}
use calendar_digest.Prelude.Words.{is_empty}

abbrev pub ParseUrl : Type 0
ParseUrl = Text → Option (Text × Text × Text)

-- The part of a request that the check reads; a header that is not set is the empty text.
pub record Envelope : Type 0 where
  pub method : Text
  pub sec_fetch_site : Text
  pub origin : Text
  pub host : Text

-- `AddTrustedOrigin`: whether it takes the origin.
unfoldable pub is_origin : ParseUrl → Text → Bool
is_origin parse origin = elim (parse origin) [
  | none ↦ false
  | some u ↦ not (is_empty u.0) && not (is_empty u.1) && is_empty u.2
]

-- The loop of `newCrossOriginProtection`: the trusted origins, or a panic.
unfoldable pub new_cross_origin_protection : ParseUrl → List Text → Option (List Text)
new_cross_origin_protection parse [] = some []
new_cross_origin_protection parse (origin ∷ origins) =
    let rest = new_cross_origin_protection parse origins in
    if is_origin parse origin
    then elim rest [ none ↦ none | some os ↦ some (origin ∷ os) ]
    else none

unfoldable pub is_safe : Text → Bool
is_safe method =
    text_eq method (codes "GET")
    || text_eq method (codes "HEAD")
    || text_eq method (codes "OPTIONS")

unfoldable pub is_trusted : List Text → Text → Bool
is_trusted trusted origin = not (is_empty origin) && any (text_eq origin) trusted

unfoldable pub same_host : ParseUrl → Text → Text → Bool
same_host parse origin host = elim (parse origin) [ none ↦ false | some u ↦ text_eq u.1 host ]

-- `Check`: whether the request may pass.
unfoldable pub may_pass : ParseUrl → List Text → Envelope → Bool
may_pass parse trusted e =
    if is_safe e.method
    then true
    else if is_empty e.sec_fetch_site
    then is_empty e.origin || same_host parse e.origin e.host || is_trusted trusted e.origin
    else if text_eq e.sec_fetch_site (codes "same-origin")
        || text_eq e.sec_fetch_site (codes "none")
    then true
    else is_trusted trusted e.origin
