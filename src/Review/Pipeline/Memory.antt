-- ===== src/Review/Pipeline/Memory.antt =====
-- A table of reviews in memory.
use code_trace.Prelude.{
  String, ◌≡◌, ◌≢◌, refl, true, false, Option, some, none, List, ◌∷◌, map, find, is_some,
  Bool-cases, Option-cases, inl, inr, if◌then◌else◌, text_eq,
}
use code_trace.Errors.{Result, ok, err, error, known_request, is_unique_violation}
use code_trace.Exec.{Exec, Ends, returned, threw}
use code_trace.Review.Store.{ReviewRow, ReviewTable, has_key, has_id, update_row, running_row}
use code_trace.Review.Pipeline.Outcome.{CanUpdate}

abbrev pub Rows : Type 0
Rows = List ReviewRow

-- It has one id to give, "r1".
abbrev create_in : String → String → Exec Rows ReviewRow
create_in p c rows =
    if is_some (find (has_key p c) rows)
    then (err (known_request "P2002" "Unique constraint failed"), rows)
    else if is_some (find (has_id "r1") rows)
    then (err (error none "no id is left"), rows)
    else (ok (running_row "r1" p c), running_row "r1" p c ∷ rows)

abbrev or_missing : Rows → Option ReviewRow → Result ReviewRow × Rows
or_missing rows none = (err (known_request "P2025" "No record was found"), rows)
or_missing rows (some row) = (ok row, rows)

abbrev updated :
    String → (ReviewRow → ReviewRow) → Rows → Option ReviewRow → Result ReviewRow × Rows
updated id change rows none = (err (known_request "P2025" "No record was found"), rows)
updated id change rows (some row) = (ok (change row), map (update_row id change) rows)

abbrev update_in : String → (ReviewRow → ReviewRow) → Exec Rows ReviewRow
update_in id change rows = updated id change rows (find (has_id id) rows)

pub is_some-none : {A : Type 0} (o : Option A) → is_some o ≡ false → o ≡ none
is_some-none none h = refl
is_some-none (some a) h = absurd (cc h)

pub create_in_lem :
    (p c : String) (rows : Rows)
    → Ends
        (create_in p c rows)
        (λ row t.
          (find (has_key p c) rows ≡ none)
          × (find (has_id row.id) rows ≡ none)
          × (row.id ≢ "")
          × (row ≡ running_row row.id p c)
          × (t ≡ row ∷ rows))
        (λ e t.
          (t ≡ rows) × (is_unique_violation e ≡ true → is_some (find (has_key p c) rows) ≡ true))
create_in_lem p c rows = elim (Bool-cases (is_some (find (has_key p c) rows))) [
  | inl e ↦ rw e (threw _ rows refl (refl, λ h. refl))
  | inr e ↦ elim (Bool-cases (is_some (find (has_id "r1") rows))) [
    | inl f ↦ rw (e, f) (threw _ rows refl (refl, λ h. absurd (cc h)))
    | inr f ↦
        rw (e, f)
          (returned _ _ refl (is_some-none _ e, is_some-none _ f, (λ h. absurd (cc h)), refl, refl))
  ]
]

abbrev pub memory : ReviewTable Rows
memory = record {
  rows = λ rows. rows;
  create = create_in;
  find_unique = λ p c rows. (ok (find (has_key p c) rows), rows);
  find_by_id = λ id rows. or_missing rows (find (has_id id) rows);
  update = update_in;
  create_lem = create_in_lem;
  find_unique_lem = λ p c rows. returned _ rows refl (refl, refl);
  find_by_id_lem = λ id rows. elim (Option-cases (find (has_id id) rows)) [
    | inl e ↦ rw e (threw _ rows refl refl)
    | inr (row, e) ↦ rw e (returned row rows refl (refl, refl))
  ];
  update_lem = λ id change rows. elim (Option-cases (find (has_id id) rows)) [
    | inl e ↦ rw e (threw _ rows refl refl)
    | inr (row, e) ↦ rw e (returned _ _ refl (row, refl, refl, refl))
  ];
}

pub memory-CanUpdate : CanUpdate memory
memory-CanUpdate id change rows row found =
    (change row, map (update_row id change) rows, rw found refl)

abbrev pub at_once : {A : Type 0} → A → Exec Rows A
at_once a rows = (ok a, rows)
