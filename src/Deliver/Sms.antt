-- ===== src/Deliver/Sms.antt =====
-- internal/deliver/sms.go: a digest in one SMS.
pub mod Segments
pub mod Fold
pub mod Render
use calendar_digest.Prelude.{
  ℕ, zero, suc, ◌+◌, ◌-◌, ◌*◌, ◌/◌, ◌%◌, ◌≤◌, ◌<◌, ◌==◌, ltb, leb, Bool, true, false, not, ◌&&◌,
  ◌||◌, if◌then◌else◌, List, [], ◌∷◌, ◌++◌, map, Option, none, some, any, keep_if, length, take,
  ◌≡◌, refl,
}
use calendar_digest.Prelude.Chars.{Text, codes, decimal}
use calendar_digest.Prelude.Words.{is_empty, fields, join}
use calendar_digest.Prelude.Fields.{one_space}
use calendar_digest.Clock.Civil.{days_of}
use calendar_digest.Clock.Layout.{parse_date}
use calendar_digest.Calendar.Event.{Event}
use calendar_digest.Jobs.Deps.{Digest}
use calendar_digest.Deliver.Message.{
  detail_url, weekday, month_name, clock_text, event_count, decode_target,
}

abbrev pub gsm7_basic : Text
gsm7_basic =
    codes "@£$¥èéùìòÇ\nØø\rÅåΔ_ΦΓΛΩΠΨΣΘΞÆæßÉ !\"#¤%&'()*+,-./0123456789:;<=>?¡"
    ++ codes "ABCDEFGHIJKLMNOPQRSTUVWXYZÄÖÑÜ§¿abcdefghijklmnopqrstuvwxyzäöñüà"

abbrev pub gsm7_extended : Text
gsm7_extended = codes "^{}\\[~]|€"

-- `strings.ContainsRune`.
abbrev pub has_rune : Text → ℕ → Bool
has_rune s r = any (λ c. c == r) s

unfoldable pub is_basic : ℕ → Bool
is_basic = has_rune gsm7_basic

unfoldable pub is_extended : ℕ → Bool
is_extended = has_rune gsm7_extended

-- The first loop: the septets, and whether every character is in the alphabet.
count_septets : Text → ℕ → Bool → ℕ × Bool
count_septets [] septets gsm = (septets, gsm)
count_septets (r ∷ s) septets gsm =
    let plain = count_septets s (septets + 1) gsm in
    let escaped = count_septets s (septets + 2) gsm in
    let other = count_septets s septets false in
    if is_basic r then plain else if is_extended r then escaped else other

-- The second loop: UTF-16 code units.
count_units : Text → ℕ → ℕ
count_units [] units = units
count_units (r ∷ s) units = count_units s (if ltb 0xffff r then units + 1 + 1 else units + 1)

unfoldable pub segments_for : ℕ → ℕ → ℕ → ℕ
segments_for length single concatenated =
    if leb length single then 1 else (length + concatenated - 1) / concatenated

unfoldable pub sms_segments : Text → ℕ
unfolding count_septets count_units
sms_segments text =
    if is_empty text
    then 0
    else let (septets, gsm) = count_septets text 0 true in
      if not gsm then segments_for (count_units text 0) 70 67 else segments_for septets 160 153

-- The pairs of `gsmReplacer`; each key is one character.
replace_rune : ℕ → Text
replace_rune r =
    if (r == 0x2013) || (r == 0x2014) || (r == 0x2011)
    then codes "-"
    else if (r == 0x2018) || (r == 0x2019)
    then codes "'"
    else if (r == 0x201c) || (r == 0x201d)
    then codes "\""
    else if r == 0x2026
    then codes "..."
    else if r == 0x2022
    then codes "*"
    else if r == 0x2192
    then codes "->"
    else if r == 0xa0
    then codes " "
    else r ∷ []

gsm_replace : Text → Text
gsm_replace [] = []
gsm_replace (r ∷ s) = replace_rune r ++ gsm_replace s

abbrev pub is_gsm : ℕ → Bool
is_gsm r = is_basic r || is_extended r

-- What is left of a text in the alphabet, before it is made one line.
unfoldable pub gsm_part : Text → Text
unfolding gsm_replace replace_rune
gsm_part s = keep_if is_gsm (gsm_replace s)

unfoldable pub gsm_fold : Text → Text
gsm_fold s =
    let folded = join one_space (fields (gsm_part s)) in
    if not (is_empty folded) then folded else join one_space (fields s)

unfoldable pub sms_entry : Event → Text
sms_entry ev = if ev.all_day then ev.summary else clock_text ev.start ++ (one_space ++ ev.summary)

-- "Mon 2 Jan".
unfoldable pub short_date : Text → Text
short_date date = elim (parse_date date) [
  | none ↦ date
  | some d ↦
      take 3 (weekday (days_of d))
      ++ (one_space ++ (decimal d.day ++ (one_space ++ take 3 (month_name d.month))))
]

unfoldable pub with_link : Text → Text → Text
with_link body url = if is_empty url then body else body ++ (b'\n' ∷ url)

-- The message that names the first `named` entries.
unfoldable pub candidate : Text → Text → List Text → ℕ → Text
candidate prefix url entries named =
    let body = prefix ++ join (codes ", ") (take named entries) in
    let dropped = length entries - named in
    let text =
      if ltb 0 dropped then body ++ (codes " +" ++ (decimal dropped ++ codes " more")) else body in
    with_link text url

-- The loop over `named`, counting down; `last` is what follows it.
unfoldable pub fit : Text → Text → List Text → Text → ℕ → Text
fit prefix url entries last zero = last
fit prefix url entries last (suc n) =
    let fewer = fit prefix url entries last n in
    if leb (sms_segments (candidate prefix url entries (suc n))) 1
    then candidate prefix url entries (suc n)
    else fewer

abbrev pub prefix_of : Digest → Text
prefix_of d = gsm_fold (short_date d.date) ++ codes ": "

abbrev pub entries_of : Digest → List Text
entries_of d = map (λ ev. gsm_fold (sms_entry ev)) d.events

-- `SMSRenderer.Render`.
unfoldable pub render_sms : Text → Digest → Text
render_sms base_url d =
    let url = detail_url base_url d.token in
    if length d.events == 0
    then with_link (prefix_of d ++ codes "nothing on") url
    else fit (prefix_of d) url (entries_of d) (with_link (prefix_of d ++ event_count d) url)
        (length (entries_of d))

-- `SMSNotifier.Send`: it returns an error on every path, after it logged the payload.
unfoldable pub send_sms : (Text → Text → Option Text) → Text → Digest → Bool
send_sms unmarshal config d = elim (decode_target unmarshal config (codes "phone")) [
  | none ↦ false
  | some phone ↦ false
]
