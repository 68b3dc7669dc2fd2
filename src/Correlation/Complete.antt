-- ===== src/Correlation/Complete.antt =====
-- `_identity_time_pairs` finds exactly the pairs of events that belong together.
use dfir_investigation_workb.Prelude.{
  Bool, Bool-cases, List, Option, Text, [], ap, arith, inl, inr, none, some, sym, text_eq_iff, true,
  ℕ, ◌&&◌, ◌==◌, ◌↔◌, ◌∙◌, ◌∷◌, ◌≡◌,
}
use dfir_investigation_workb.Correlation.Events.{TimelineEvent, or_empty, sort_events}
use dfir_investigation_workb.Correlation.Pairs.{
  Groups, Identity, Pair, all_pairs, group_events, group_of, has_time, identity_time_pairs,
  pairs_of, pairs_with, within_window,
}
use dfir_investigation_workb.Correlation.Matching.{
  Among, Among-append, Among-append_left, Among-append_right, not_both, sort_events-Among,
}
use dfir_investigation_workb.Correlation.Grouping.{group_of-group_events, identity_is, members}

-- of one case, and near each other in time
abbrev pub compatible : ℕ → TimelineEvent → TimelineEvent → Bool
compatible window e f = (e.case_id == f.case_id) && within_window e f window

-- An event is in a group exactly if it is one of the events and is to be in the group.
members-Among :
    (identity_of : Identity) (key : Text) (a : TimelineEvent) (es : List TimelineEvent)
    → Among a (members identity_of key es)
      ↔ (Among a es × (has_time a && identity_is key (identity_of a) ≡ true))
members-Among identity_of key a [] = (λ h. elim h [ ], λ h. h.0)
members-Among identity_of key a (e ∷ es) =
    let (there, back) = members-Among identity_of key a es in
    elim (Bool-cases (has_time e && identity_is key (identity_of e))) [
      | inl kept ↦ rw kept (
        λ h. elim h [
          | inl p ↦ (
            inl p,
            ap (λ (t : TimelineEvent). has_time t && identity_is key (identity_of t)) p ∙ kept,
          )
          | inr r ↦ (inr (there r).0, (there r).1)
        ],
        λ h. elim h.0 [ inl p ↦ inl p | inr r ↦ inr (back (r, h.1)) ],
      )
      | inr left_out ↦ rw left_out (
        λ h. (inr (there h).0, (there h).1),
        λ h. elim h.0 [
          | inl p ↦
              elim (not_both h.1 (
                ap (λ (t : TimelineEvent). has_time t && identity_is key (identity_of t)) p
                ∙ left_out)) [ ]
          | inr r ↦ back (r, h.1)
        ],
      )
    ]

-- the pairs that one event forms
PairedWith : ℕ → TimelineEvent → Text → List TimelineEvent → Pair → Type 0
PairedWith window e identity fs p =
    (p.left ≡ e) × (p.identity ≡ identity) × Among p.right fs × (compatible window e p.right ≡ true)

pairs_with-Among :
    (window : ℕ) (e : TimelineEvent) (identity : Text) (p : Pair) (fs : List TimelineEvent)
    → Among p (pairs_with window e identity fs) ↔ PairedWith window e identity fs p
unfolding PairedWith pairs_with
pairs_with-Among window e identity p [] = (λ h. elim h [ ], λ h. h.2)
pairs_with-Among window e identity p (f ∷ fs) =
    let (there, back) = pairs_with-Among window e identity p fs in
    elim (Bool-cases (compatible window e f)) [
      | inl fits ↦ rw fits (
        λ h. elim h [
          | inl q ↦ (
            ap (λ (t : Pair). t.left) q,
            ap (λ (t : Pair). t.identity) q,
            inl (ap (λ (t : Pair). t.right) q),
            ap (λ (t : Pair). compatible window e t.right) q ∙ fits,
          )
          | inr r ↦ let (x, y, z, u) = there r in (x, y, inr z, u)
        ],
        λ (x, y, z, u). elim z [ inl q ↦ inl (pair_eq x y q) | inr r ↦ inr (back (x, y, r, u)) ],
      )
      | inr apart ↦ rw apart (
        λ h. let (x, y, z, u) = there h in (x, y, inr z, u),
        λ (x, y, z, u). elim z [
          | inl q ↦ elim (not_both u (ap (λ t. compatible window e t) q ∙ apart)) [ ]
          | inr r ↦ back (x, y, r, u)
        ],
      )
    ]
  where
    pair_eq :
        p.left ≡ e
        → p.identity ≡ identity
        → p.right ≡ f
        → p ≡ record { left = e; right = f; identity = identity }
    pair_eq x y z i = record { left = x i; right = z i; identity = y i }

pub some_injective : {a b : Text} → some a ≡ some b → a ≡ b
some_injective {a} {b} h = ap (λ (o : Option Text). or_empty o) h

pairs_of-Among :
    (window : ℕ) (groups : Groups) (e : TimelineEvent) (identity : Option Text) (p : Pair)
    → Among p (pairs_of window groups e identity) ↔ (
        (p.left ≡ e)
        × (identity ≡ some p.identity)
        × Among p.right (group_of p.identity groups)
        × (compatible window e p.right ≡ true))
unfolding PairedWith
pairs_of-Among window groups e none p = (λ h. elim h [ ], λ h. cc (h.1))
pairs_of-Among window groups e (some identity) p =
    let (there, back) =
      pairs_with-Among window e identity p (sort_events (group_of identity groups)) in
    (
      λ h.
          let (x, y, z, u) = there h in
          (
            x,
            ap (λ t. some t) (sym y),
            rw y ((sort_events-Among p.right (group_of identity groups)).0 z),
            u,
          ),
      λ (x, y, z, u).
          let same : identity ≡ p.identity = some_injective y in
          back
            (x, sym same, (sort_events-Among p.right (group_of identity groups)).1 (rw same z), u),
    )

all_pairs-Among :
    (window : ℕ) (groups : Groups) (left_identity : Identity) (p : Pair) (es : List TimelineEvent)
    → Among p (all_pairs window groups left_identity es) ↔ (
        Among p.left es
        × (left_identity p.left ≡ some p.identity)
        × Among p.right (group_of p.identity groups)
        × (compatible window p.left p.right ≡ true))
unfolding all_pairs
all_pairs-Among window groups left_identity p [] = (λ h. elim h [ ], λ h. h.0)
all_pairs-Among window groups left_identity p (e ∷ es) =
    let (there, back) = all_pairs-Among window groups left_identity p es in
    let (of_first, to_first) = pairs_of-Among window groups e (left_identity e) p in
    let rest = all_pairs window groups left_identity es in
    (
      λ h. elim (Among-append p (pairs_of window groups e (left_identity e)) rest h) [
        | inl first ↦
            let (x, y, z, u) = of_first first in
            (inl x, ap left_identity x ∙ y, z, ap (λ t. compatible window t p.right) x ∙ u)
        | inr later ↦ let (x, y, z, u) = there later in (inr x, y, z, u)
      ],
      λ (x, y, z, u). elim x [
        | inl q ↦ Among-append_left p (pairs_of window groups e (left_identity e)) rest (
            to_first (
              q,
              ap left_identity (sym q) ∙ y,
              z,
              ap (λ t. compatible window t p.right) (sym q) ∙ u,
            ))
        | inr r ↦
            Among-append_right p (pairs_of window groups e (left_identity e)) rest
              (back (r, y, z, u))
      ],
    )

-- What makes two events a pair of their identity.
unfoldable pub Together :
    List TimelineEvent → List TimelineEvent → Identity → Identity → ℕ → Pair → Type 0
Together left right left_identity right_identity window p =
    Among p.left left
    × Among p.right right
    × (left_identity p.left ≡ some p.identity)
    × (right_identity p.right ≡ some p.identity)
    × (p.left.case_id ≡ p.right.case_id)
    × (within_window p.left p.right window ≡ true)

identity_is-some : (key : Text) (o : Option Text) → (identity_is key o ≡ true) ↔ (o ≡ some key)
identity_is-some key none = (λ h. cc, λ h. cc)
identity_is-some key (some k) =
    (λ h. ap (λ t. some t) ((text_eq_iff k key).0 h), λ h. (text_eq_iff k key).1 (some_injective h))

within_window-has_time :
    (e f : TimelineEvent) (window : ℕ) → within_window e f window ≡ true → has_time f ≡ true
unfolding within_window
within_window-has_time e f window h = ground arith

-- The pairs are exactly those of a left and a right event with the same identity, of the same case
-- and within the window: none is missed, and none is made that does not fit.
pub identity_time_pairs-Together :
    (left right : List TimelineEvent) (left_identity right_identity : Identity) (window : ℕ)
    (p : Pair)
    → Among p (identity_time_pairs left right left_identity right_identity window)
      ↔ Together left right left_identity right_identity window p
unfolding identity_time_pairs Together group_of
identity_time_pairs-Together left right left_identity right_identity window p =
    let (there, back) =
      all_pairs-Among window (group_events right_identity right []) left_identity p
        (sort_events left) in
    let (to_left, from_left) = sort_events-Among p.left left in
    let grouped : group_of p.identity (group_events right_identity right [])
        ≡ members right_identity p.identity right =
      group_of-group_events right_identity p.identity right [] in
    let (of_group, to_group) = members-Among right_identity p.identity p.right right in
    (
      λ h.
          let (x, y, z, u) = there h in
          let (m, k) = of_group (rw grouped at z) in
          (
            to_left x,
            m,
            y,
            (identity_is-some p.identity (right_identity p.right)).0 (ground (arith, k)),
            ground (arith, u),
            ground (arith, u),
          ),
      λ (l, r, y, k, c, w).
          let timed = within_window-has_time p.left p.right window w in
          let known = (identity_is-some p.identity (right_identity p.right)).1 k in
          back (
            from_left l,
            y,
            rw grouped (to_group (r, ground (arith, timed, known))),
            ground (arith, c, w),
          ),
    )
