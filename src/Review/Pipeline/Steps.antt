-- ===== src/Review/Pipeline/Steps.antt =====
-- The reviews after each part of a job that owns a row.
use code_trace.Prelude.{String, ◌≡◌, refl, sym, subst, ap, ◌∙◌, List, find-eq-some, text_eq, eq_iff}
use code_trace.Errors.{Result, ok, err}
use code_trace.Exec.{Exec, lift, Ends, returned, threw, Ends-mono}
use code_trace.Review.Store.{complete, ReviewRow, ReviewTable, has_id}
use code_trace.Review.Pipeline.Rows.{Held, update-Held, KeepsKey}

abbrev pub IsAny : ReviewRow → Type 0
IsAny row = Unit

abbrev pub IsComplete : ReviewRow → Type 0
IsComplete row = row.status ≡ complete

module _ {S : Type 0} (table : ReviewTable S) where
  -- A call that leaves the reviews keeps what is known of them.
  pub Ends-kept :
      {A : Type 0} (m : Exec S A) (H : List ReviewRow → Type 0) (s : S)
      → table.rows (m s).1 ≡ table.rows s
      → H (table.rows s)
      → Ends (m s) (λ a t. H (table.rows t)) (λ e t. H (table.rows t))
  Ends-kept {A} m H s same h = go (m s) refl
    where
      go : (r : Result A × S) → m s ≡ r → Ends r (λ a t. H (table.rows t)) (λ e t. H (table.rows t))
      go (ok a, t) e = returned a t refl (subst H (sym same ∙ ap (λ r. table.rows r.1) e) h)
      go (err f, t) e = threw f t refl (subst H (sym same ∙ ap (λ r. table.rows r.1) e) h)

  pub Ends-lift :
      {A : Type 0} (r : Result A) (H : List ReviewRow → Type 0) (s : S)
      → H (table.rows s)
      → Ends (lift r s) (λ a t. H (table.rows t)) (λ e t. H (table.rows t))
  Ends-lift (ok a) H s h = returned a s refl h
  Ends-lift (err e) H s h = threw e s refl h

  Ends-update_row :
      (id p c : String) (before : List ReviewRow) (change : ReviewRow → ReviewRow)
      {R R' : ReviewRow → Type 0} (s : S)
      → KeepsKey change
      → Held id p c before R (table.rows s)
      → ((row : ReviewRow) → R row → R' (change row))
      → Ends
          (table.update id change s)
          (λ row t. Held id p c before R' (table.rows t) × (row.id ≡ id))
          (λ e t. Held id p c before R (table.rows t))
  Ends-update_row id p c before change {R} {R'} s keeps h f =
      Ends-mono (table.update id change s) (table.update_lem id change s)
        (λ row t (old, found, same, rows). (
          subst (Held id p c before R') (sym rows)
              (update-Held id p c before (table.rows s) change keeps h f),
          ap (λ r. r.id) same
              ∙ (keeps old).0
              ∙ (eq_iff old.id id).0 (find-eq-some (has_id id) (table.rows s) {a = old} found).1,
        ))
        (λ e t rows. subst (Held id p c before R) (sym rows) h)

  -- The update through a reference to the held row.
  pub Ends-update :
      (id p c : String) (before : List ReviewRow) (change : ReviewRow → ReviewRow)
      {R R' : ReviewRow → Type 0} (held_id : String) (s : S)
      → held_id ≡ id
      → KeepsKey change
      → Held id p c before R (table.rows s)
      → ((row : ReviewRow) → R row → R' (change row))
      → Ends
          (table.update held_id change s)
          (λ row t. Held id p c before R' (table.rows t) × (row.id ≡ id))
          (λ e t. Held id p c before R (table.rows t))
  Ends-update id p c before change held_id s own keeps h f =
      rw own (Ends-update_row id p c before change s keeps h f)
