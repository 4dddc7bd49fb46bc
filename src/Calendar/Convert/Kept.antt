-- ===== src/Calendar/Convert/Kept.antt =====
-- The items that `convertAll` keeps: what `keep` and the loop of `convertAll` amount to.
use calendar_digest.Prelude.{
  true, false, List, [], ◌∷◌, any, All, some, ◌≡◌, refl, subst, arith, In, In-append-split,
  In-append-left, In-append-right, ◌↔◌, ◌⊎◌, ◌≢◌, inl, inr, Bool-cases, Option-cases,
}
use calendar_digest.Prelude.Chars.{Text, codes, text_eq, text_eq-ne, text_eq_complete}
use calendar_digest.Clock.Zone.{Location}
use calendar_digest.Calendar.Event.{Event}
use calendar_digest.Calendar.Convert.{
  GoogleAttendee, GoogleEvent, declines, declined_by_self, keep, convert, convert_one, convert_all,
}

-- The event is neither cancelled nor transparent, and no attendee that is the calendar's owner
-- declined it; other attendees do not matter.
pub record IsKept (ev : GoogleEvent) : Type 0 where
  pub not_cancelled : ev.status ≢ codes "cancelled"
  pub not_free : ev.transparency ≢ codes "transparent"
  pub not_declined :
      All
        (λ (a : GoogleAttendee). (a.self ≡ false) ⊎ (a.response_status ≢ codes "declined"))
        ev.attendees

text_ne : (s t : Text) → text_eq s t ≡ false → s ≢ t
text_ne s t h e = cc (text_eq_complete s t e)

none_declines :
    (xs : List GoogleAttendee)
    → any declines xs ≡ false
    → All (λ (a : GoogleAttendee). (a.self ≡ false) ⊎ (a.response_status ≢ codes "declined")) xs
none_declines [] h = tt
none_declines (a ∷ xs) h = (
  elim (Bool-cases a.self) [
    | inr e ↦ inl e
    | inl e ↦ inr (text_ne a.response_status (codes "declined") (ground arith))
  ],
  none_declines xs (ground arith),
)

declines_none :
    (xs : List GoogleAttendee)
    → All (λ (a : GoogleAttendee). (a.self ≡ false) ⊎ (a.response_status ≢ codes "declined")) xs
    → any declines xs ≡ false
declines_none [] h = refl
declines_none (a ∷ xs) (inl e, h) = ground (arith, declines_none xs h)
declines_none (a ∷ xs) (inr n, h) =
    ground (arith, declines_none xs h, text_eq-ne a.response_status (codes "declined") n)

keep-IsKept : (ev : GoogleEvent) → keep ev ≡ true → IsKept ev
unfolding keep declined_by_self
keep-IsKept ev h = record {
  not_cancelled = text_ne ev.status (codes "cancelled") (ground arith);
  not_free = text_ne ev.transparency (codes "transparent") (ground arith);
  not_declined = none_declines ev.attendees (ground arith);
}

IsKept-keep : (ev : GoogleEvent) → IsKept ev → keep ev ≡ true
unfolding keep declined_by_self
IsKept-keep ev k = rw (text_eq-ne ev.status (codes "cancelled") k.not_cancelled) (
    rw (text_eq-ne ev.transparency (codes "transparent") k.not_free)
      (rw (declines_none ev.attendees k.not_declined)))

one_sound :
    (item : GoogleEvent) (loc : Location) (e : Event)
    → In e (convert_one item loc)
    → (keep item ≡ true) × (convert item loc ≡ some e)
unfolding convert_one
one_sound item loc e m = elim (Bool-cases (keep item)) [
  | inr k ↦ absurd (rw k at m)
  | inl k ↦ elim (Option-cases (convert item loc)) [
    | inl n ↦ ground arith
    | inr (ev, c) ↦ ground arith
  ]
]

one_complete :
    (item : GoogleEvent) (loc : Location) (e : Event)
    → keep item ≡ true
    → convert item loc ≡ some e
    → In e (convert_one item loc)
unfolding convert_one
one_complete item loc e k c = ground arith

all_sound :
    (items : List GoogleEvent) (loc : Location) (e : Event)
    → In e (convert_all items loc)
    → (item : GoogleEvent) × In item items × IsKept item × (convert item loc ≡ some e)
unfolding convert_all
all_sound [] loc e m = absurd m
all_sound (item ∷ items) loc e m =
    elim (In-append-split e (convert_one item loc) (convert_all items loc) m) [
      | inl h ↦ let (k, c) = one_sound item loc e h in (item, inl refl, keep-IsKept item k, c)
      | inr t ↦ let (i, mi, k, c) = all_sound items loc e t in (i, inr mi, k, c)
    ]

all_complete :
    (items : List GoogleEvent) (loc : Location) (e : Event) (item : GoogleEvent)
    → In item items
    → keep item ≡ true
    → convert item loc ≡ some e
    → In e (convert_all items loc)
unfolding convert_all
all_complete [] loc e item m k c = absurd m
all_complete (i ∷ items) loc e item (inl same) k c =
    In-append-left e (convert_one i loc) (convert_all items loc)
      (subst (λ x. In e (convert_one x loc)) same (one_complete item loc e k c))
all_complete (i ∷ items) loc e item (inr m) k c =
    In-append-right e (convert_one i loc) (convert_all items loc)
      (all_complete items loc e item m k c)

-- What a page is converted to: exactly the events that some item, kept and with readable times,
-- converts to.
pub convert_all_iff :
    (items : List GoogleEvent) (loc : Location) (e : Event)
    → In e (convert_all items loc)
      ↔ ((item : GoogleEvent) × In item items × IsKept item × (convert item loc ≡ some e))
convert_all_iff items loc e =
    (all_sound items loc e, λ h. all_complete items loc e h.0 h.1 (IsKept-keep h.0 h.2) h.3)
