-- ===== src/Ui/Links.antt =====
-- The link of the overview and the link of the messages, which differ for a base URL that ends with
-- a slash. `Load` trims one slash, so that is a base URL that was configured with two.
use calendar_digest.Prelude.{ℕ, Bool, false, [], ◌∷◌, ◌≡◌, refl, ap, inl, inr, Bool-cases, ◌==◌}
use calendar_digest.Prelude.Chars.{Text, codes}
use calendar_digest.Prelude.Words.{is_empty, trim_suffix}
use calendar_digest.Deliver.Message
use calendar_digest.Ui.Pages.{Pages}
use calendar_digest.Ui.Home
use calendar_digest.Ui.Examples.{pages}

-- The text ends with the character.
abbrev pub ends_with : ℕ → Text → Bool
ends_with c [] = false
ends_with c (a ∷ []) = a == c
ends_with c (a ∷ b ∷ s) = ends_with c (b ∷ s)

trim_suffix-none : (c : ℕ) (s : Text) → ends_with c s ≡ false → trim_suffix c s ≡ s
unfolding trim_suffix
trim_suffix-none c [] h = refl
trim_suffix-none c (a ∷ []) h = rw h refl
trim_suffix-none c (a ∷ b ∷ s) h = ap (λ t. a ∷ t) (trim_suffix-none c (b ∷ s) h)

-- With a base URL that is not empty and does not end with a slash, the overview links to the page
-- that the messages link to.
detail_url-agrees :
    (p : Pages) (token : Text)
    → is_empty p.base_url ≡ false
    → ends_with b'/' p.base_url ≡ false
    → Home.detail_url p token ≡ Message.detail_url p.base_url token
unfolding Home.detail_url Message.detail_url
detail_url-agrees p token given open_end = elim (Bool-cases (is_empty token)) [
  | inl e ↦ rw (given, e) refl
  | inr e ↦ rw (given, e, trim_suffix-none b'/' p.base_url open_end) refl
]

page_link :
    Home.detail_url (record pages { base_url = codes "https://x/" }) (codes "t1")
    ≡ codes "https://x//d/t1"
unfolding Home.detail_url
page_link = refl

message_link : Message.detail_url (codes "https://x/") (codes "t1") ≡ codes "https://x/d/t1"
unfolding Message.detail_url trim_suffix
message_link = refl
