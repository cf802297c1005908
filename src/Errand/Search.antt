-- ===== src/Errand/Search.antt =====
-- domain/rule.go: `NormalizeMineSearch`, the filters of a member's list of tasks.
use backend_demo.Prelude.{
  Bool, true, ◌&&◌, not, ◌≡◌, refl, sym, ◌∙◌, ap, ◌⊎◌, inl, inr, Option, none, some, List, [], ◌∷◌,
  any, Bool-cases, arith, if◌then◌else◌,
}
use backend_demo.Platform.Text.{Text, codes, text_eq, is_empty, trim}

pub record MineSearch : Type 0 where
  pub relation : Text
  pub status : Text
  pub review_status : Text

-- `validMineRelation`, `validTaskStatus` and `validReviewStatus`: the words they accept.
abbrev mine_relations : List Text
mine_relations = codes "all" ∷ codes "published" ∷ codes "accepted" ∷ []

abbrev task_statuses : List Text
task_statuses =
    codes "open"
    ∷ codes "accepted"
    ∷ codes "picked_up"
    ∷ codes "delivered"
    ∷ codes "completed"
    ∷ codes "cancelled"
    ∷ []

abbrev review_statuses : List Text
review_statuses = codes "draft" ∷ codes "pending_review" ∷ codes "approved" ∷ codes "rejected" ∷ []

abbrev is_among : List Text → Text → Bool
is_among words s = any (text_eq s) words

unfoldable pub valid_mine_relation : Text → Bool
valid_mine_relation = is_among mine_relations

unfoldable pub valid_task_status : Text → Bool
valid_task_status = is_among task_statuses

unfoldable pub valid_review_status : Text → Bool
valid_review_status = is_among review_statuses

abbrev relation_or_all : Text → Text
relation_or_all relation = if is_empty relation then codes "all" else relation

-- No error is `some`.
abbrev checked : MineSearch → Option MineSearch
checked search =
    if not (valid_mine_relation search.relation)
    then none
    else if not (is_empty search.status) && not (valid_task_status search.status)
    then none
    else if not (is_empty search.review_status) && not (valid_review_status search.review_status)
    then none
    else some search

abbrev trimmed : MineSearch → MineSearch
trimmed search = record {
  relation = relation_or_all (trim search.relation);
  status = trim search.status;
  review_status = trim search.review_status;
}

unfoldable pub normalize_mine_search : MineSearch → Option MineSearch
unfolding valid_mine_relation valid_task_status valid_review_status
normalize_mine_search search = checked (trimmed search)

text_eq-eq : (s t : Text) → text_eq s t ≡ true → s ≡ t
text_eq-eq [] [] h = refl
text_eq-eq [] (d ∷ t) h = cc
text_eq-eq (c ∷ s) [] h = cc
text_eq-eq (c ∷ s) (d ∷ t) h = ground (arith, text_eq-eq s t)

-- A predicate of texts that holds of all words holds of each text among them.
Trimmed : List Text → Type 0
Trimmed [] = Unit
Trimmed (w ∷ words) = (trim w ≡ w) × Trimmed words

among-trim : (words : List Text) (s : Text) → Trimmed words → is_among words s ≡ true → trim s ≡ s
unfolding Trimmed
among-trim [] s v h = cc
among-trim (w ∷ words) s (first, rest) h = elim (Bool-cases (text_eq s w)) [
  | inl same ↦ let here = text_eq-eq s w same in ap trim here ∙ first ∙ sym here
  | inr other ↦ among-trim words s rest (ground (arith, h, other))
]

words-trim : (Trimmed mine_relations × Trimmed task_statuses) × Trimmed review_statuses
unfolding Trimmed trim
words-trim = (
  ((refl, (refl, (refl, tt))), (refl, (refl, (refl, (refl, (refl, (refl, tt))))))),
  (refl, (refl, (refl, (refl, tt)))),
)

checked-eq-some :
    (s : MineSearch) {r : MineSearch}
    → checked s ≡ some r
    → (r ≡ s)
      × (valid_mine_relation s.relation ≡ true)
      × ((is_empty s.status ≡ true) ⊎ (valid_task_status s.status ≡ true))
      × ((is_empty s.review_status ≡ true) ⊎ (valid_review_status s.review_status ≡ true))
checked-eq-some s h = ground arith

relation_stable : (s : Text) → valid_mine_relation s ≡ true → relation_or_all (trim s) ≡ s
unfolding valid_mine_relation is_empty
relation_stable [] h = cc
relation_stable (c ∷ s) h = ap relation_or_all (among-trim mine_relations (c ∷ s) words-trim.0.0 h)

word_stable :
    (words : List Text) (s : Text)
    → Trimmed words
    → (is_empty s ≡ true) ⊎ (is_among words s ≡ true)
    → trim s ≡ s
unfolding is_empty trim
word_stable words [] v h = refl
word_stable words (c ∷ s) v (inl empty) = cc
word_stable words (c ∷ s) v (inr h) = among-trim words (c ∷ s) v h

status_stable : (s : Text) → (is_empty s ≡ true) ⊎ (valid_task_status s ≡ true) → trim s ≡ s
unfolding valid_task_status
status_stable s h = word_stable task_statuses s words-trim.0.1 h

review_stable : (s : Text) → (is_empty s ≡ true) ⊎ (valid_review_status s ≡ true) → trim s ≡ s
unfolding valid_review_status
review_stable s h = word_stable review_statuses s words-trim.1 h

checked-stable :
    (s : MineSearch) {r : MineSearch} → checked s ≡ some r → normalize_mine_search r ≡ some r
unfolding normalize_mine_search
checked-stable s {r} h =
    let (same, relation, status, review) = checked-eq-some s h in
    let stable : normalize_mine_search s ≡ some r =
      ap checked (λ i. record {
        relation = relation_stable s.relation relation i;
        status = status_stable s.status status i;
        review_status = review_stable s.review_status review i;
      })
      ∙ h in
    ap normalize_mine_search same ∙ stable

-- Filters that pass have a relation, are left as they are when they are normalized again, and name
-- only words that the rules know.
pub normalize_mine_search-stable :
    (s : MineSearch) {r : MineSearch}
    → normalize_mine_search s ≡ some r
    → (normalize_mine_search r ≡ some r)
      × (valid_mine_relation r.relation ≡ true)
      × ((is_empty r.status ≡ true) ⊎ (valid_task_status r.status ≡ true))
      × ((is_empty r.review_status ≡ true) ⊎ (valid_review_status r.review_status ≡ true))
unfolding normalize_mine_search
normalize_mine_search-stable s {r} h =
    let (same, relation, status, review) = checked-eq-some (trimmed s) h in
    (checked-stable (trimmed s) h, rw same relation, rw same status, rw same review)
