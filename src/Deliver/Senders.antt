-- ===== src/Deliver/Senders.antt =====
-- internal/deliver/smtp.go, cloudflare.go and internal/notify/telegram.go: the transports. The
-- network, the mail library, JSON and the HTML template are no code of the repository; each is a
-- function in `Outside`.
use calendar_digest.Prelude.{
  ℕ, ◌^◌, ◌*◌, ◌==◌, ltb, leb, Bool, false, not, ◌||◌, any, if◌then◌else◌, List, [], ◌∷◌, ◌++◌,
  take, Option, none, some,
}
use calendar_digest.Prelude.Chars.{Text, codes, text_eq}
use calendar_digest.Prelude.Words.{is_empty}
use calendar_digest.Prelude.Ints.{ℤ}
use calendar_digest.Deliver.Email.{Email}

-- A POST of JSON: the URL, the header `Authorization` where it is set, and the body.
pub record Request : Type 0 where
  pub url : Text
  pub authorization : Option Text
  pub body : Text

pub record Response : Type 0 where
  pub status : ℕ
  pub body : Text

-- `SMTPSender` and `CloudflareSender`.
pub record SmtpSender : Type 0 where
  pub host : Text
  pub port : ℤ
  pub username : Text
  pub password : Text
  pub from : Text

pub record CloudflareSender : Type 0 where
  pub account_id : Text
  pub api_token : Text
  pub api_url : Text
  pub from : Text

-- A mail with its text and its HTML, in this order.
pub record Mail : Type 0 where
  pub mail_from : Text
  pub mail_to : Text
  pub subject : Text
  pub text : Text
  pub html_body : Text

-- How the mail client connects; the credentials are those of the automatic authentication.
pub record MailClient : Type 0 where
  pub host : Text
  pub port : ℤ
  pub credentials : Option (Text × Text)

pub record CloudflareRequest : Type 0 where
  pub email_to : Text
  pub email_from : Text
  pub subject : Text
  pub text : Text
  pub html_body : Text

pub record CloudflareResponse : Type 0 where
  pub success : Bool
  pub permanent_bounces : List Text

pub record Outside : Type 0 where
  pub unmarshal : Text → Text → Option Text
  pub http : Request → Option Response
  pub is_address : Text → Bool
  pub dial_and_send : MailClient → Mail → Bool
  pub encode_email : CloudflareRequest → Text
  pub decode_email : Text → Option CloudflareResponse
  pub encode_message : Text → Text → Text
  pub decode_message : Text → Option Bool

-- `SMTPSender.Send`.
unfoldable pub send_smtp : Outside → SmtpSender → Text → Email → Bool
send_smtp o s address email =
    if not (o.is_address s.from)
    then false
    else if not (o.is_address address)
    then false
    else o.dial_and_send
        (record {
          host = s.host;
          port = s.port;
          credentials = if is_empty s.username then none else some (s.username, s.password);
        })
        (record {
          mail_from = s.from;
          mail_to = address;
          subject = email.subject;
          text = email.text;
          html_body = email.html_body;
        })

-- `strings.TrimRight` by one character.
unfoldable pub trim_right_all : ℕ → Text → Text
trim_right_all c [] = []
trim_right_all c (a ∷ s) =
    let rest = trim_right_all c s in
    if is_empty rest then (if a == c then [] else a ∷ []) else a ∷ rest

-- What a response of Cloudflare says of a mail to the address.
unfoldable pub is_taken : Text → ℕ → CloudflareResponse → Bool
is_taken address status r =
    if ltb status 200 || leb 300 status || not r.success
    then false
    else not (any (λ bounced. text_eq bounced address) r.permanent_bounces)

-- `CloudflareSender.Send`.
unfoldable pub send_cloudflare : Outside → CloudflareSender → Text → Email → Bool
send_cloudflare o s address email =
    elim (o.http (record {
      url =
          trim_right_all b'/' s.api_url
          ++ (codes "/accounts/" ++ (s.account_id ++ codes "/email/sending/send"));
      authorization = some (codes "Bearer " ++ s.api_token);
      body = o.encode_email (record {
        email_to = address;
        email_from = s.from;
        subject = email.subject;
        text = email.text;
        html_body = email.html_body;
      });
    })) [
      | none ↦ false
      | some resp ↦ elim (o.decode_email (take (2 ^ 20) resp.body)) [
        | none ↦ false
        | some result ↦ is_taken address resp.status result
      ]
    ]

-- `Telegram.SendMessage`; a base URL of its own is for tests.
unfoldable pub send_message : Outside → Text → Text → Text → Bool
send_message o token chat_id text =
    elim (o.http (record {
      url = codes "https://api.telegram.org/bot" ++ (token ++ codes "/sendMessage");
      authorization = none;
      body = o.encode_message chat_id text;
    })) [
      | none ↦ false
      | some resp ↦ elim (o.decode_message (take (8 * 1024) resp.body)) [
        | none ↦ false
        | some taken ↦ taken
      ]
    ]

-- `TelegramAlerter.Alert`.
unfoldable pub alert : Outside → Text → Text → Text → Text → Bool
alert o token chat_id subject detail =
    send_message o token chat_id (subject ++ (codes "\n\n" ++ detail))
