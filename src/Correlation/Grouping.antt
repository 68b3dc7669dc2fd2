-- ===== src/Correlation/Grouping.antt =====
-- The groups that `_identity_time_pairs` makes hold, in order, the events with a time and the
-- identity.
use dfir_investigation_workb.Prelude.{
  Bool, Bool-cases, List, Option, Text, [], ap, arith, false, if◌then◌else◌, inl, inr, none, refl,
  some, sym, text_eq, text_eq_iff, text_eq_refl, ◌&&◌, ◌++◌, ◌∙◌, ◌∷◌, ◌≡◌,
}
use dfir_investigation_workb.Correlation.Events.{TimelineEvent}
use dfir_investigation_workb.Correlation.Pairs.{
  Groups, Identity, add_identified, add_to_group, group_events, group_of, has_time,
}

abbrev pub identity_is : Text → Option Text → Bool
identity_is key none = false
identity_is key (some k) = text_eq k key

-- the events that a key's group is to hold
abbrev pub members : Identity → Text → List TimelineEvent → List TimelineEvent
members identity_of key [] = []
members identity_of key (e ∷ es) =
    let rest = members identity_of key es in
    if has_time e && identity_is key (identity_of e) then e ∷ rest else rest

append_nil {ℓ} : {A : Type ℓ} (xs : List A) → xs ++ [] ≡ xs
append_nil [] = refl
append_nil (x ∷ xs) = ap (λ t. x ∷ t) (append_nil xs)

append_assoc {ℓ} : {A : Type ℓ} (xs ys zs : List A) → (xs ++ ys) ++ zs ≡ xs ++ (ys ++ zs)
append_assoc [] ys zs = refl
append_assoc (x ∷ xs) ys zs = ap (λ t. x ∷ t) (append_assoc xs ys zs)

group_of-add_same :
    (key : Text) (e : TimelineEvent) (groups : Groups)
    → group_of key (add_to_group key e groups) ≡ group_of key groups ++ e ∷ []
unfolding group_of add_to_group
group_of-add_same key e [] = rw (text_eq_refl key) refl
group_of-add_same key e ((k, es) ∷ rest) = elim (Bool-cases (text_eq k key)) [
  | inl same ↦ ground (arith, same)
  | inr other ↦ ground (arith, other, group_of-add_same key e rest)
]

group_of-add_other :
    (key k : Text) (e : TimelineEvent) (groups : Groups)
    → text_eq k key ≡ false
    → group_of key (add_to_group k e groups) ≡ group_of key groups
unfolding group_of add_to_group
group_of-add_other key k e [] h = ground arith
group_of-add_other key k e ((k', es) ∷ rest) h = elim (Bool-cases (text_eq k' k)) [
  | inl same ↦
      let eq : k' ≡ k = (text_eq_iff k' k).0 same in
      let other : text_eq k' key ≡ false = ap (λ t. text_eq t key) eq ∙ h in
      ground (arith, same, other)
  | inr other ↦ ground (arith, other, group_of-add_other key k e rest h)
]

group_of-add_identified :
    (key : Text) (identity : Option Text) (e : TimelineEvent) (groups : Groups)
    → group_of key (add_identified identity e groups)
      ≡ (if identity_is key identity then group_of key groups ++ e ∷ [] else group_of key groups)
group_of-add_identified key none e groups = refl
group_of-add_identified key (some k) e groups = elim (Bool-cases (text_eq k key)) [
  | inl same ↦ rw same (
      ap (λ t. group_of key (add_to_group t e groups)) ((text_eq_iff k key).0 same)
      ∙ group_of-add_same key e groups)
  | inr other ↦ rw other (group_of-add_other key k e groups other)
]

pub group_of-group_events :
    (identity_of : Identity) (key : Text) (es : List TimelineEvent) (groups : Groups)
    → group_of key (group_events identity_of es groups)
      ≡ group_of key groups ++ members identity_of key es
unfolding group_events
group_of-group_events identity_of key [] groups = sym (append_nil (group_of key groups))
group_of-group_events identity_of key (e ∷ es) groups = elim (Bool-cases (has_time e)) [
  | inr timeless ↦ rw timeless (group_of-group_events identity_of key es groups)
  | inl timed ↦
      let ih = group_of-group_events identity_of key es (add_identified (identity_of e) e groups) in
      elim (Bool-cases (identity_is key (identity_of e))) [
        | inl here ↦
            rw (timed, here)
              (ih
                ∙ ap (λ t. t ++ members identity_of key es) (added here)
                ∙ append_assoc (group_of key groups) (e ∷ []) (members identity_of key es))
        | inr there ↦
            rw (timed, there) (ih ∙ ap (λ t. t ++ members identity_of key es) (added there))
      ]
]
  where
    added :
        {b : Bool}
        → identity_is key (identity_of e) ≡ b
        → group_of key (add_identified (identity_of e) e groups)
          ≡ (if b then group_of key groups ++ e ∷ [] else group_of key groups)
    added h =
        group_of-add_identified key (identity_of e) e groups
        ∙ ap (λ b. if b then group_of key groups ++ e ∷ [] else group_of key groups) h
