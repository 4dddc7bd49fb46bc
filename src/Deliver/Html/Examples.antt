-- ===== src/Deliver/Html/Examples.antt =====
-- Examples of the HTML part of an email.
use calendar_digest.Prelude.{true, false, [], ◌∷◌, ◌++◌, ◌≡◌, refl}
use calendar_digest.Prelude.Chars.{codes, text_eq}
use calendar_digest.Deliver.Escape.{
  html_escape, href_escape, url_normalize, url_filter, is_safe_url,
}
use calendar_digest.Deliver.Html.{EmailEvent, EmailView, write, email_template}
use calendar_digest.Deliver.Html.Markup.{outside_tags, markup}
use calendar_digest.Deliver.Html.Masked.{masked, email_template-markup}

abbrev empty_day : EmailView
empty_day = record {
  headline = codes "Wednesday, 5 August";
  count = codes "nothing on";
  events = [];
  detail_url = codes "https://calendar.int.lookout.wiki/d/xK3fQ9mTn2vB7cLpR4wZ";
}

-- internal/deliver/testdata/email_empty_day.html.golden.
email_empty_day_golden :
    write (email_template empty_day)
    ≡ codes "<div style=\"font-family:-apple-system,Segoe UI,Roboto,Helvetica,Arial,sans-serif;"
      ++ (codes "font-size:15px;line-height:1.5;color:#1a1a1a;max-width:640px\">\n<h1 style=\""
          ++ (codes "font-size:19px;font-weight:600;margin:0 0 2px\">Wednesday, 5 August</h1>\n"
              ++ (codes "<p style=\"margin:0 0 20px;color:#6b6b6b;font-size:13px\">nothing on</p>\n"
                  ++ (codes
                        "<p style=\"margin:20px 0 0\"><a href=\"https://calendar.int.lookout.wiki/d/"
                      ++ (codes
                            "xK3fQ9mTn2vB7cLpR4wZ\" style=\"color:#1a5fb4\">Full detail</a></p>\n"
                          ++ codes "</div>\n")))))
unfolding write email_template html_escape href_escape url_normalize url_filter is_safe_url text_eq
email_empty_day_golden = refl

-- An event whose texts try to bring tags of their own.
abbrev forged_event : EmailEvent
forged_event = record {
  time = codes "All day";
  summary = codes "<script>alert(1)</script>";
  tentative = true;
  recurring = false;
  location = [];
  description = codes "</div><img src=x>";
  conference_url = codes "https://x/\" onclick=\"alert(1)";
  organizer = [];
  with = codes "\"<b>";
}

abbrev forged : EmailView
forged = record empty_day { events = forged_event ∷ [] }

email_template-markup_example :
    markup outside_tags (write (email_template forged))
    ≡ markup outside_tags (write (email_template (masked forged)))
email_template-markup_example = email_template-markup forged
