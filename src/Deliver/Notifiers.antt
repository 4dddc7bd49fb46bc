-- ===== src/Deliver/Notifiers.antt =====
-- internal/cmd/serve_cmd.go: which channels a configuration can deliver to, and
-- `jobs.RegisterNotifiers`. The order of the list is
-- that of the registrations, whose kinds differ.
use calendar_digest.Prelude.{
  ℕ, Bool, true, false, not, ◌&&◌, ◌||◌, if◌then◌else◌, List, [], ◌∷◌, ◌++◌, Option, none, some,
  ◌≡◌, ◌≢◌, refl, sym, ap, ◌∙◌, subst, ◌↔◌, ◌⊎◌, inl, inr, arith, Bool-cases, Option-cases,
}
use calendar_digest.Prelude.Chars.{
  Text, codes, text_eq, text_eq_sound, text_eq_complete, text_eq_refl,
}
use calendar_digest.Prelude.Words.{is_empty}
use calendar_digest.Jobs.Deps.{Notifier, notifier_for}
use calendar_digest.Config.{AppConf, EmailConf, Conf}
use calendar_digest.Deliver.Sms.{send_sms}
use calendar_digest.Deliver.Email.{send_email}
use calendar_digest.Deliver.Senders.{
  Outside, SmtpSender, CloudflareSender, send_smtp, send_cloudflare, send_message,
}
use calendar_digest.Deliver.Telegram.{send_telegram}
pub mod Channels

-- A notifier with its `Kind`.
abbrev Registration : Type 0
Registration = Text × Notifier

unfoldable pub telegram_notifiers : Outside → Conf → List Registration
telegram_notifiers o c =
    let token = c.app_conf.telegram_bot_token in
    if is_empty token
    then []
    else (codes "telegram", send_telegram o.unmarshal (send_message o token) c.app_conf.base_url)
      ∷ []

-- The switch over the email provider.
unfoldable pub email_notifiers : Outside → Conf → List Registration
email_notifiers o c =
    let e = c.email in
    let smtp = text_eq e.provider (codes "smtp") in
    let cloudflare = text_eq e.provider (codes "cloudflare") in
    let base = c.app_conf.base_url in
    if is_empty e.from
    then []
    else if smtp && is_empty e.host
    then []
    else if cloudflare && (is_empty e.account_id || is_empty e.api_token)
    then []
    else if smtp
    then (
      codes "email",
      send_email o.unmarshal
          (send_smtp o (record {
            host = e.host;
            port = e.port;
            username = e.username;
            password = e.password;
            from = e.from;
          }))
          base,
    )
      ∷ []
    else if cloudflare
    then (
      codes "email",
      send_email o.unmarshal
          (send_cloudflare o (record {
            account_id = e.account_id;
            api_token = e.api_token;
            api_url = e.api_url;
            from = e.from;
          }))
          base,
    )
      ∷ []
    else []

unfoldable pub build_notifiers : Outside → Conf → List Registration
build_notifiers o c =
    (codes "sms", send_sms o.unmarshal) ∷ (telegram_notifiers o c ++ email_notifiers o c)
