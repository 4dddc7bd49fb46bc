-- ===== src/Deliver/Escape.antt =====
-- The escapers that Go's html/template puts behind the actions of a template: for text between
-- tags, and for a URL that is the whole of a quoted attribute. Texts are lists of code points; the
-- URL normalizer writes the bytes of UTF-8.
use calendar_digest.Prelude.{
  ℕ, ◌+◌, ◌/◌, ◌%◌, Bool, true, false, ◌&&◌, ◌||◌, ltb, leb, ◌==◌, if◌then◌else◌, any, List, [],
  ◌∷◌, ◌++◌, map, Option, none, some, ◌≡◌, refl, arith,
}
use calendar_digest.Prelude.Chars.{Text, codes, text_eq}
use calendar_digest.Prelude.Words.{Lacks}

escape_char : ℕ → Text
escape_char c =
    if c == 0
    then 65533 ∷ []
    else if c == b'"'
    then codes "&#34;"
    else if c == b'&'
    then codes "&amp;"
    else if c == b'\''
    then codes "&#39;"
    else if c == b'+'
    then codes "&#43;"
    else if c == b'<'
    then codes "&lt;"
    else if c == b'>'
    then codes "&gt;"
    else c ∷ []

-- `htmlReplacer`, the escaper of text and of quoted attributes.
unfoldable pub html_escape : Text → Text
unfolding escape_char
html_escape [] = []
html_escape (c ∷ s) = escape_char c ++ html_escape s

-- The text before the first colon.
protocol : Text → Option Text
protocol [] = none
protocol (c ∷ s) =
    let rest = protocol s in
    if c == b':' then some [] else elim rest [ none ↦ none | some p ↦ some (c ∷ p) ]

-- Simple case folding, for words of the letters of "http", "https" and "mailto".
fold : ℕ → ℕ
fold c = if leb b'A' c && leb c b'Z' then c + 32 else if c == 383 then b's' else c

is_safe_protocol : Text → Bool
is_safe_protocol p =
    let word = map fold p in
    any (λ c. c == b'/') p
    || (text_eq word (codes "http")
        || (text_eq word (codes "https") || text_eq word (codes "mailto")))

-- `isSafeURL`.
unfoldable pub is_safe_url : Text → Bool
unfolding protocol is_safe_protocol fold
is_safe_url s = elim (protocol s) [ none ↦ true | some p ↦ is_safe_protocol p ]

-- `urlFilter`.
unfoldable pub url_filter : Text → Text
url_filter s = if is_safe_url s then s else codes "#ZgotmplZ"

is_between : ℕ → ℕ → ℕ → Bool
is_between a b c = leb a c && leb c b

is_hex : ℕ → Bool
unfolding is_between
is_hex c = is_between b'0' b'9' c || (is_between b'a' b'f' c || is_between b'A' b'F' c)

two_hex : Text → Bool
two_hex (a ∷ b ∷ s) = is_hex a && is_hex b
two_hex (a ∷ []) = false
two_hex [] = false

is_url_char : ℕ → Bool
unfolding is_between
is_url_char c =
    any (λ a. a == c) (codes "!#$&*+,/:;=?@[]-._~")
    || (is_between b'a' b'z' c || (is_between b'A' b'Z' c || is_between b'0' b'9' c))

utf8 : ℕ → List ℕ
utf8 c =
    if ltb c 128
    then c ∷ []
    else if ltb c 2048
    then (192 + c / 64) ∷ (128 + c % 64) ∷ []
    else if ltb c 65536
    then (224 + c / 4096) ∷ (128 + c / 64 % 64) ∷ (128 + c % 64) ∷ []
    else (240 + c / 262144) ∷ (128 + c / 4096 % 64) ∷ (128 + c / 64 % 64) ∷ (128 + c % 64) ∷ []

hex_digit : ℕ → ℕ
hex_digit d = if ltb d 10 then b'0' + d else 87 + d

percent : List ℕ → Text
percent [] = []
percent (b ∷ bs) = b'%' ∷ hex_digit (b / 16) ∷ hex_digit (b % 16) ∷ percent bs

-- `urlNormalizer`.
unfoldable pub url_normalize : Text → Text
unfolding is_url_char two_hex is_hex percent hex_digit utf8
url_normalize [] = []
url_normalize (c ∷ s) =
    let rest = url_normalize s in
    if is_url_char c || ((c == b'%') && two_hex s) then c ∷ rest else percent (utf8 c) ++ rest

-- A string in `href="…"`.
unfoldable pub href_escape : Text → Text
href_escape s = html_escape (url_normalize (url_filter s))

script_link : href_escape (codes "javascript:alert(1)") ≡ codes "#ZgotmplZ"
unfolding href_escape html_escape escape_char url_normalize url_filter is_safe_url protocol
    is_safe_protocol fold is_url_char is_between text_eq
script_link = refl

meeting_link :
    href_escape (codes "HTTPS://x/é?a=b c&d=%2f\"") ≡ codes "HTTPS://x/%c3%a9?a=b%20c&amp;d=%2f%22"
unfolding href_escape html_escape escape_char url_normalize url_filter is_safe_url protocol
    is_safe_protocol fold is_url_char is_between text_eq utf8 percent hex_digit two_hex is_hex
meeting_link = refl

pub Lacks-append : (c : ℕ) (s t : Text) → Lacks c s → Lacks c t → Lacks c (s ++ t)
Lacks-append c [] t h k = k
Lacks-append c (a ∷ s) t h k = ground (arith, Lacks-append c s t)

escape_char-Lacks : (c : ℕ) → Lacks b'<' (escape_char c) × Lacks b'"' (escape_char c)
unfolding escape_char
escape_char-Lacks c = ground arith

-- An escaped text opens no tag.
pub html_escape-less : (s : Text) → Lacks b'<' (html_escape s)
unfolding html_escape
html_escape-less [] = refl
html_escape-less (c ∷ s) =
    Lacks-append b'<' (escape_char c) (html_escape s) (escape_char-Lacks c).0 (html_escape-less s)

-- An escaped text ends no quoted attribute.
pub html_escape-quote : (s : Text) → Lacks b'"' (html_escape s)
unfolding html_escape
html_escape-quote [] = refl
html_escape-quote (c ∷ s) =
    Lacks-append b'"' (escape_char c) (html_escape s) (escape_char-Lacks c).1 (html_escape-quote s)
