-- ===== src/Review/Pipeline/Rows.antt =====
-- The rows of pr_reviews while a job works on the review of one key.
use code_trace.Prelude.{
  String, ◌≡◌, ◌≢◌, ◌↔◌, refl, sym, ap, ◌∙◌, subst, inl, inr, true, false, none, some, List, ◌∷◌,
  map, arith, Has, Has-map, map-Has, find, find-eq-none, find-eq-some, Bool-cases, text_eq, eq_iff,
}
use code_trace.Review.Store.{ReviewRow, running_row, has_key, has_id, update_row}

-- No two rows share an id, and no id is empty.
abbrev pub HasIds : List ReviewRow → Type 0
HasIds xs =
    ((a b : ReviewRow) → Has a xs → Has b xs → a.id ≡ b.id → a ≡ b)
    × ((a : ReviewRow) → Has a xs → a.id ≢ "")

-- The change keeps the id and the key of a row.
abbrev pub KeepsKey : (ReviewRow → ReviewRow) → Type 0
KeepsKey change =
    (row : ReviewRow)
    → ((change row).id ≡ row.id)
      × ((change row).pull_request_id ≡ row.pull_request_id)
      × ((change row).commit_sha ≡ row.commit_sha)

module _ (id p c : String) (before : List ReviewRow) where
  -- Of the rows `now`, one has the id and the key and satisfies `R`; every row with the id has the key;
  -- and the rows with another key are those from before.
  pub record Held (R : ReviewRow → Type 0) (now : List ReviewRow) : Type 0 where
    pub row : ReviewRow
    pub listed : Has row now
    pub id_is : row.id ≡ id
    pub key_is : has_key p c row ≡ true
    pub holds : R row
    pub guarded : (r : ReviewRow) → Has r now → r.id ≡ id → has_key p c r ≡ true
    pub others : (r : ReviewRow) → has_key p c r ≡ false → Has r before ↔ Has r now

  pub Held-mono :
      {R R' : ReviewRow → Type 0} (now : List ReviewRow)
      → Held R now
      → ((row : ReviewRow) → R row → R' row)
      → Held R' now
  Held-mono now h f = record {
    row = h.row;
    listed = h.listed;
    id_is = h.id_is;
    key_is = h.key_is;
    holds = f h.row h.holds;
    guarded = h.guarded;
    others = h.others;
  }

update_row_key :
    (id p c : String) (change : ReviewRow → ReviewRow) (row : ReviewRow)
    → KeepsKey change
    → (has_key p c (update_row id change row) ≡ has_key p c row)
      × ((update_row id change row).id ≡ row.id)
update_row_key id p c change row keeps = elim (Bool-cases (has_id id row)) [
  | inl e ↦ rw (e, (keeps row).1, (keeps row).2, (keeps row).0) (refl, refl)
  | inr e ↦ rw e (refl, refl)
]

update_row_other :
    (id : String) (change : ReviewRow → ReviewRow) (row : ReviewRow)
    → row.id ≢ id
    → update_row id change row ≡ row
update_row_other id change row h = ground (arith, eq_iff row.id id)

update_row_same :
    (id : String) (change : ReviewRow → ReviewRow) (row : ReviewRow)
    → row.id ≡ id
    → update_row id change row ≡ change row
update_row_same id change row h = ground (arith, eq_iff row.id id)

-- The update of the row with the id.
pub update-Held :
    (id p c : String) (before now : List ReviewRow) (change : ReviewRow → ReviewRow)
    {R R' : ReviewRow → Type 0}
    → KeepsKey change
    → Held id p c before R now
    → ((row : ReviewRow) → R row → R' (change row))
    → Held id p c before R' (map (update_row id change) now)
update-Held id p c before now change {R} {R'} keeps h f = record {
  row = change h.row;
  listed =
      subst (λ r. Has r (map (update_row id change) now)) (update_row_same id change h.row h.id_is)
        (map-Has (update_row id change) h.row now h.listed);
  id_is = (keeps h.row).0 ∙ h.id_is;
  key_is = rw ((keeps h.row).1, (keeps h.row).2) h.key_is;
  holds = f h.row h.holds;
  guarded = λ r k e.
      let (a, listed, same) = Has-map (update_row id change) r now k in
      let (key, kept) = update_row_key id p c change a keeps in
      subst (λ x. has_key p c x ≡ true) same
        (key ∙ h.guarded a listed (sym kept ∙ ap (λ x. x.id) same ∙ e));
  others = λ r other. (
    λ k.
        let now_listed = (h.others r other).0 k in
        subst (λ x. Has x (map (update_row id change) now))
          (update_row_other id change r (λ e. absurd (cc (h.guarded r now_listed e, other))))
          (map-Has (update_row id change) r now now_listed),
    λ k.
        let (a, listed, same) = Has-map (update_row id change) r now k in
        let (key, kept) = update_row_key id p c change a keeps in
        let a_other : has_key p c a ≡ false = sym key ∙ ap (has_key p c) same ∙ other in
        let unchanged =
          update_row_other id change a (λ e. absurd (cc (h.guarded a listed e, a_other))) in
        (h.others r other).1 (subst (λ x. Has x now) (sym unchanged ∙ same) listed),
  );
}

-- The row that `create` adds.
pub create-Held :
    (id p c : String) (before : List ReviewRow)
    → find (has_id id) before ≡ none
    → Held id p c before (λ row. row ≡ running_row id p c) (running_row id p c ∷ before)
create-Held id p c before fresh = record {
  row = running_row id p c;
  listed = inl refl;
  id_is = refl;
  key_is = key;
  holds = refl;
  guarded = λ r k e. elim k [
    | inl same ↦ subst (λ x. has_key p c x ≡ true) same key
    | inr old ↦ absurd (cc (find-eq-none (has_id id) before fresh r old, (eq_iff r.id id).1 e))
  ];
  others = λ r other. (
    λ k. inr k,
    λ k. elim k [
      | inl same ↦ absurd (cc (subst (λ x. has_key p c x ≡ true) same key, other))
      | inr old ↦ old
    ],
  );
}
  where
    key : has_key p c (running_row id p c) ≡ true
    key = ground (arith, eq_iff p p, eq_iff c c)

-- The row that was found under its key.
pub found-Held :
    (p c : String) (before : List ReviewRow) (row : ReviewRow)
    → HasIds before
    → find (has_key p c) before ≡ some row
    → Held row.id p c before (λ r. r ≡ row) before
found-Held p c before row ids found =
    let (listed, key) = find-eq-some (has_key p c) before {a = row} found in
    record {
      row = row;
      listed = listed;
      id_is = refl;
      key_is = key;
      holds = refl;
      guarded = λ r k e. subst (λ x. has_key p c x ≡ true) (ids.0 row r listed k (sym e)) key;
      others = λ r other. (λ k. k, λ k. k);
    }
