-- ===== src/Websocket/Progress/Views.antt =====
-- When two views of a row are the same.
use code_trace.Prelude.{
  ◌≡◌, ◌↔◌, refl, ap, Bool, true, Option, none, some, arith, ◌&&◌, Eq, text_eq, number_eq,
}
use code_trace.Websocket.Progress.{
  IndexView, ReviewView, same_option, same_index_view, same_review_view,
}

same_option_iff : {A : Type 0} ⦃e : Eq A⦄ (a b : Option A) → (same_option a b ≡ true) ↔ (a ≡ b)
same_option_iff none none = (λ h. refl, λ h. refl)
same_option_iff none (some b) = (λ h. cc h, λ h. cc h)
same_option_iff (some a) none = (λ h. cc h, λ h. cc h)
same_option_iff ⦃e⦄ (some a) (some b) =
    (λ h. ap some ((e.beq_iff a b).0 h), λ h. (e.beq_iff a b).1 (cc h))

all_three : (a b c : Bool) → (a && (b && c)) ≡ true → (a ≡ true) × (b ≡ true) × (c ≡ true)
all_three a b c h = ground arith

pub same_index_view_iff : (a b : IndexView) → (same_index_view a b ≡ true) ↔ (a ≡ b)
same_index_view_iff a b = (λ h. equal h, λ h. same h)
  where
    equal : same_index_view a b ≡ true → a ≡ b
    equal h =
        let (status, files, chunks) = all_three _ _ _ h in
        let same_status = (text_eq.beq_iff a.status b.status).0 status in
        let same_files = (number_eq.beq_iff a.files_indexed b.files_indexed).0 files in
        let same_chunks = (number_eq.beq_iff a.chunks_indexed b.chunks_indexed).0 chunks in
        cc (same_status, same_files, same_chunks)

    same : a ≡ b → same_index_view a b ≡ true
    same h =
        rw
          (
            (text_eq.beq_iff a.status b.status).1 (ap (λ v. v.status) h),
            (number_eq.beq_iff a.files_indexed b.files_indexed).1 (ap (λ v. v.files_indexed) h),
            (number_eq.beq_iff a.chunks_indexed b.chunks_indexed).1 (ap (λ v. v.chunks_indexed) h),
          )
          refl

pub same_review_view_iff : (a b : ReviewView) → (same_review_view a b ≡ true) ↔ (a ≡ b)
same_review_view_iff a b = (λ h. equal h, λ h. same h)
  where
    equal : same_review_view a b ≡ true → a ≡ b
    equal h =
        let (status, score, level) = all_three _ _ _ h in
        let same_status = (text_eq.beq_iff a.status b.status).0 status in
        let same_score = (same_option_iff a.risk_score b.risk_score).0 score in
        let same_level = (same_option_iff a.risk_level b.risk_level).0 level in
        cc (same_status, same_score, same_level)

    same : a ≡ b → same_review_view a b ≡ true
    same h =
        rw
          (
            (text_eq.beq_iff a.status b.status).1 (ap (λ v. v.status) h),
            (same_option_iff a.risk_score b.risk_score).1 (ap (λ v. v.risk_score) h),
            (same_option_iff a.risk_level b.risk_level).1 (ap (λ v. v.risk_level) h),
          )
          refl
