-- ===== src/Deliver/Telegram.antt =====
-- internal/deliver/telegram.go: the digest as a Telegram message. `bot` is the transport.
use calendar_digest.Prelude.{
  ◌==◌, Bool, false, if◌then◌else◌, List, [], ◌∷◌, ◌++◌, Option, none, some, length,
}
use calendar_digest.Prelude.Chars.{Text, codes, text_eq}
use calendar_digest.Prelude.Words.{is_empty}
use calendar_digest.Calendar.Event.{Event}
use calendar_digest.Jobs.Deps.{Digest}
use calendar_digest.Deliver.Message.{detail_url, headline, time_range, decode_target}

abbrev newline : Text
newline = b'\n' ∷ []

write_event : Event → Text
write_event ev =
    time_range ev
    ++ (codes "  "
        ++ (ev.summary
            ++ ((if is_empty ev.location then [] else codes " — " ++ ev.location)
                ++ ((if text_eq ev.status (codes "tentative") then codes " (tentative)" else [])
                    ++ newline))))

write_events : List Event → Text
write_events [] = []
write_events (ev ∷ evs) = write_event ev ++ write_events evs

-- `TelegramRenderer.Render`.
unfoldable pub render_telegram : Text → Digest → Text
unfolding write_events write_event
render_telegram base_url d =
    let url = detail_url base_url d.token in
    d.recipient_name
    ++ (codes " — "
        ++ (headline d.date
            ++ (codes "\n\n"
                ++ ((if length d.events == 0 then codes "Nothing on.\n" else [])
                    ++ (write_events d.events
                        ++ (if is_empty url then [] else newline ++ (url ++ newline)))))))

-- `TelegramNotifier.Send`.
unfoldable pub send_telegram :
    (Text → Text → Option Text) → (Text → Text → Bool) → Text → Text → Digest → Bool
send_telegram unmarshal bot base_url config d =
    elim (decode_target unmarshal config (codes "chat_id")) [
      | none ↦ false
      | some chat_id ↦ bot chat_id (render_telegram base_url d)
    ]
