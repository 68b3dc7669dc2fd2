-- ===== src/Correlation/Matching.antt =====
-- The pairs of `_identity_time_pairs` are exactly the pairs of events that fit.
use dfir_investigation_workb.Prelude.{
  Bool, Bool-cases, List, [], false, inl, inr, true, ◌++◌, ◌∷◌, ◌≡◌, ◌⊎◌,
}
use dfir_investigation_workb.Correlation.Events.{
  TimelineEvent, compare_events, insert_event, not_after, sort_events,
}

-- The item is one of the list.
abbrev pub Among : {A : Type 0} → A → List A → Type 0
Among a [] = ⊥
Among a (x ∷ xs) = (a ≡ x) ⊎ Among a xs

pub not_both : {b : Bool} → b ≡ true → b ≡ false → ⊥
not_both h h' = cc

pub Among-append_left : {A : Type 0} (a : A) (xs ys : List A) → Among a xs → Among a (xs ++ ys)
Among-append_left a [] ys h = elim h [ ]
Among-append_left a (x ∷ xs) ys (inl e) = inl e
Among-append_left a (x ∷ xs) ys (inr h) = inr (Among-append_left a xs ys h)

pub Among-append_right : {A : Type 0} (a : A) (xs ys : List A) → Among a ys → Among a (xs ++ ys)
Among-append_right a [] ys h = h
Among-append_right a (x ∷ xs) ys h = inr (Among-append_right a xs ys h)

pub Among-append :
    {A : Type 0} (a : A) (xs ys : List A) → Among a (xs ++ ys) → Among a xs ⊎ Among a ys
Among-append a [] ys h = inr h
Among-append a (x ∷ xs) ys (inl e) = inl (inl e)
Among-append a (x ∷ xs) ys (inr h) = elim (Among-append a xs ys h) [
  | inl l ↦ inl (inr l)
  | inr r ↦ inr r
]

-- Sorting keeps the events.
insert_event-Among :
    (a e : TimelineEvent) (es : List TimelineEvent)
    → (Among a (insert_event e es) → (a ≡ e) ⊎ Among a es)
      × ((a ≡ e) ⊎ Among a es → Among a (insert_event e es))
unfolding insert_event
insert_event-Among a e [] = (λ h. h, λ h. h)
insert_event-Among a e (f ∷ fs) = elim (Bool-cases (not_after (compare_events e f))) [
  | inl first ↦ rw first (λ h. h, λ h. h)
  | inr later ↦
      rw later (swap_first (insert_event-Among a e fs).0, swap_last (insert_event-Among a e fs).1)
]
  where
    swap_first :
        (Among a (insert_event e fs) → (a ≡ e) ⊎ Among a fs)
        → (a ≡ f) ⊎ Among a (insert_event e fs)
        → (a ≡ e) ⊎ ((a ≡ f) ⊎ Among a fs)
    swap_first ih (inl p) = inr (inl p)
    swap_first ih (inr h) = elim (ih h) [ inl p ↦ inl p | inr r ↦ inr (inr r) ]

    swap_last :
        ((a ≡ e) ⊎ Among a fs → Among a (insert_event e fs))
        → (a ≡ e) ⊎ ((a ≡ f) ⊎ Among a fs)
        → (a ≡ f) ⊎ Among a (insert_event e fs)
    swap_last ih (inl p) = inr (ih (inl p))
    swap_last ih (inr (inl p)) = inl p
    swap_last ih (inr (inr r)) = inr (ih (inr r))

pub sort_events-Among :
    (a : TimelineEvent) (es : List TimelineEvent)
    → (Among a (sort_events es) → Among a es) × (Among a es → Among a (sort_events es))
unfolding sort_events
sort_events-Among a [] = (λ h. h, λ h. h)
sort_events-Among a (e ∷ es) =
    let (inserted, insert) = insert_event-Among a e (sort_events es) in
    let (there, back) = sort_events-Among a es in
    (
      λ h. elim (inserted h) [ inl p ↦ inl p | inr r ↦ inr (there r) ],
      λ h. insert (elim h [ inl p ↦ inl p | inr r ↦ inr (back r) ]),
    )
