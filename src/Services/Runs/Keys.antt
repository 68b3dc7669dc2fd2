-- ===== src/Services/Runs/Keys.antt =====
-- How the stored matches and findings belong together: the keys of the matches are different, and the
-- findings are about the matches, one about each.
use dfir_investigation_workb.Services.Session.{CorrelationMatch, Finding, Tables}
use dfir_investigation_workb.Prelude.{
  Bool-cases, Datetime, List, Text, [], ap, arith, false, inl, inr, map, none, refl, some, sym,
  text_eq, text_eq_iff, text_eq_refl, ℕ, ◌++◌, ◌∙◌, ◌∷◌, ◌≡◌,
}
use dfir_investigation_workb.Services.Runs.{Outside, find_match, new_finding, new_match}
use dfir_investigation_workb.Services.Runs.Adds.{Adds, nothing, one_more}
use dfir_investigation_workb.Services.Runs.Steps.{RunStep, no_run, one_run}
use dfir_investigation_workb.Services.Findings.{find_finding, replace_finding}
use dfir_investigation_workb.Services.Findings.Transitions.{
  FindingStep, SameFinding, moves, stays, updates,
}

abbrev pub DistinctKeys : List CorrelationMatch → Type 0
DistinctKeys [] = Unit
DistinctKeys (m ∷ ms) = (find_match m.deterministic_key ms ≡ none) × DistinctKeys ms

abbrev pub IsConsistent : Tables → Type 0
IsConsistent t =
    DistinctKeys t.correlation_matches
    × (map (λ (f : Finding). f.correlation_match_id) t.findings
        ≡ map (λ (m : CorrelationMatch). m.id) t.correlation_matches)

text_eq-other : (a b : Text) → text_eq a b ≡ false → text_eq b a ≡ false
text_eq-other a b other = elim (Bool-cases (text_eq b a)) [
  | inl same ↦ ground (arith, other, (text_eq_iff b a).0 same, text_eq_refl b)
  | inr differs ↦ differs
]

find_match-append :
    (key : Text) (ms : List CorrelationMatch) (m : CorrelationMatch)
    → find_match key ms ≡ none
    → text_eq m.deterministic_key key ≡ false
    → find_match key (ms ++ m ∷ []) ≡ none
unfolding find_match
find_match-append key [] m absent other = rw other refl
find_match-append key (x ∷ ms) m absent other = ground (arith, absent, find_match-append key ms m)

DistinctKeys-append :
    (ms : List CorrelationMatch) (m : CorrelationMatch)
    → DistinctKeys ms
    → find_match m.deterministic_key ms ≡ none
    → DistinctKeys (ms ++ m ∷ [])
unfolding find_match
DistinctKeys-append [] m distinct absent = (refl, tt)
DistinctKeys-append (x ∷ ms) m (fresh, distinct) absent = (
  find_match-append x.deterministic_key ms m fresh
      (text_eq-other x.deterministic_key m.deterministic_key (ground (arith, absent))),
  DistinctKeys-append ms m distinct (ground (arith, absent)),
)

map-snoc {ℓ κ} :
    {A : Type ℓ} {B : Type κ} (f : A → B) (xs : List A) (x : A)
    → map f (xs ++ x ∷ []) ≡ map f xs ++ f x ∷ []
map-snoc f [] x = refl
map-snoc f (y ∷ ys) x = ap (λ zs. f y ∷ zs) (map-snoc f ys x)

module _ (o : Outside) (case_id window : ℕ) where
  Adds-IsConsistent :
      {t t' : Tables} {n : ℕ} → Adds o case_id window t t' n → IsConsistent t → IsConsistent t'
  Adds-IsConsistent nothing h = h
  Adds-IsConsistent {t} (one_more {t'} {n} c before absent) h =
      let (distinct, paired) = Adds-IsConsistent before h in
      (
        DistinctKeys-append t'.correlation_matches (new_match o case_id window c n) distinct absent,
        map-snoc (λ (f : Finding). f.correlation_match_id) t'.findings
              (new_finding o case_id window c n n)
            ∙ ap (λ ids. ids ++ o.match_id n ∷ []) paired
            ∙ sym (
                map-snoc (λ (m : CorrelationMatch). m.id) t'.correlation_matches
                  (new_match o case_id window c n)),
      )

  pub RunStep-IsConsistent :
      {t t' : Tables} → RunStep o case_id window t t' → IsConsistent t → IsConsistent t'
  RunStep-IsConsistent (no_run e) h = rw e h
  RunStep-IsConsistent (one_run event_count warnings n added' more e) h =
      rw e (Adds-IsConsistent more h)

pub find_finding-id :
    (i : ℕ) (fs : List Finding) (f : Finding) → find_finding i fs ≡ some f → f.id ≡ i
unfolding find_finding
find_finding-id i [] f h = cc
find_finding-id i (x ∷ fs) f h = ground (arith, find_finding-id i fs f)

map-replace_finding :
    (i : ℕ) (f row : Finding) (fs : List Finding)
    → find_finding i fs ≡ some f
    → f.id ≡ row.id
    → f.correlation_match_id ≡ row.correlation_match_id
    → map (λ (g : Finding). g.correlation_match_id) (replace_finding row fs)
      ≡ map (λ (g : Finding). g.correlation_match_id) fs
unfolding find_finding replace_finding
map-replace_finding i f row [] found id_is match_is = refl
map-replace_finding i f row (x ∷ fs) found id_is match_is = ground (
  arith,
  found,
  id_is,
  match_is,
  find_finding-id i (x ∷ fs) f found,
  map-replace_finding i f row fs,
)

replaced-paired :
    (i : ℕ) (f row : Finding) (t : Tables)
    → find_finding i t.findings ≡ some f
    → SameFinding f row
    → map (λ (g : Finding). g.correlation_match_id) (replace_finding row t.findings)
      ≡ map (λ (g : Finding). g.correlation_match_id) t.findings
replaced-paired i f row t found same =
    map-replace_finding i f row t.findings found (ap (λ (g : Finding). g.id) same)
      (ap (λ (g : Finding). g.correlation_match_id) same)

pub FindingStep-IsConsistent :
    {t t' : Tables} (now : Datetime) (i : ℕ)
    → FindingStep now i t t'
    → IsConsistent t
    → IsConsistent t'
FindingStep-IsConsistent now i (stays e) h = rw e h
FindingStep-IsConsistent {t} now i (updates f row fields found same stamped kept e)
      (distinct, paired) =
    rw e (distinct, replaced-paired i f row t found same ∙ paired)
FindingStep-IsConsistent {t} now i (moves f row fields found same stamped move e)
      (distinct, paired) =
    rw e (distinct, replaced-paired i f row t found same ∙ paired)
