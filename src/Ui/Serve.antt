-- ===== src/Ui/Serve.antt =====
-- internal/ui/ui.go, `Routes` and `DigestRoutes`: which handler answers a request. A session and the
-- check of the origin are the router's.
use calendar_digest.Prelude.{Option}
use calendar_digest.Prelude.Chars.{Text}
use calendar_digest.Store.Recipients.{RecipientFields}
use calendar_digest.Ui.Pages.{Pages, Handler}
use calendar_digest.Ui.Recipients.{
  recipient_new, recipient_edit, recipient_create, recipient_update, recipient_delete,
  recipient_digest_now,
}
use calendar_digest.Ui.Targets.{
  TargetFields, target_create, target_toggle, target_delete, target_test,
}
use calendar_digest.Ui.Home.{home}
use calendar_digest.Ui.Detail.{digest_detail}

-- A request, with the part of its path and what it sends.
pub data Request : Type 0 where
  open_home open_new : Request
  post_recipient : Option RecipientFields → Request
  open_recipient drop_recipient post_digest_now : Text → Request
  post_update : Text → Option RecipientFields → Request
  post_target : Text → Option TargetFields → Request
  post_toggle post_test drop_target open_digest : Text → Request

unfoldable pub serve : Pages → Request → Handler
serve p open_home = home p
serve p open_new = recipient_new
serve p (post_recipient f) = recipient_create p f
serve p (open_recipient id) = recipient_edit p id
serve p (drop_recipient id) = recipient_delete p id
serve p (post_digest_now id) = recipient_digest_now p id
serve p (post_update id f) = recipient_update p id f
serve p (post_target id f) = target_create p id f
serve p (post_toggle id) = target_toggle p id
serve p (post_test id) = target_test p id
serve p (drop_target id) = target_delete p id
serve p (open_digest token) = digest_detail p token
