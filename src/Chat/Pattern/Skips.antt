-- ===== src/Chat/Pattern/Skips.antt =====
-- How much of a text a match takes in.
use Prim.Native.Char.{Char, code}
use code_trace.Prelude.{
  ℕ, suc, ◌+◌, ◌-◌, ◌*◌, String, ◌≡◌, refl, sym, ◌∙◌, ap, inl, inr, some, is_digit, nat_eq, arith,
  Bool-cases,
}
use code_trace.Chat.Pattern.{is_name_char, span_name, Digits, span_number, number, match_all}

skip_name : (s : String) (k : ℕ) → match_all ((span_name s).1 + k) s ≡ match_all k (span_name s).2
unfolding span_name match_all
skip_name String.[] k = refl
skip_name (String.◌∷◌ c s) k = elim (Bool-cases (is_name_char (code c))) [
  | inl e ↦
      let one : suc (span_name s).1 + k ≡ suc ((span_name s).1 + k) = omega arith in
      rw e (ap (λ j. match_all j (String.◌∷◌ c s)) one ∙ skip_name s k)
  | inr e ↦ let same : 0 + k ≡ k = omega arith in rw e (ap (λ j. match_all j (String.◌∷◌ c s)) same)
]

pub skip-span_name :
    (s name rest : String) (n k : ℕ)
    → span_name s ≡ (name, n, rest)
    → match_all (n + k) s ≡ match_all k rest
skip-span_name s name rest n k e =
    ap (λ r. match_all (r.1 + k) s) (sym e) ∙ skip_name s k ∙ ap (λ r. match_all k r.2) e

skip_number :
    (s : String) (value count k : ℕ)
    → (n : ℕ) × ((span_number value count s).count ≡ count + n)
      × (match_all (n + k) s ≡ match_all k (span_number value count s).rest)
unfolding span_number match_all
skip_number String.[] value count k = (0, omega arith, refl)
skip_number (String.◌∷◌ c s) value count k = elim (Bool-cases (is_digit (code c))) [
  | inl e ↦
      let (n, read, skipped) = skip_number s (value * 10 + (code c - b'0')) (suc count) k in
      let one : suc n + k ≡ suc (n + k) = omega arith in
      let more : suc count + n ≡ count + suc n = omega arith in
      (suc n, rw e (read ∙ more), rw e (ap (λ j. match_all j (String.◌∷◌ c s)) one ∙ skipped))
  | inr e ↦
      let same : 0 + k ≡ k = omega arith in
      (0, rw e (omega arith), rw e (ap (λ j. match_all j (String.◌∷◌ c s)) same))
]

pub skip-number :
    (s : String) (d : Digits) (k : ℕ)
    → number s ≡ some d
    → match_all (d.count + k) s ≡ match_all k d.rest
unfolding number
skip-number s d k h = elim (Bool-cases (nat_eq (span_number 0 0 s).count 0)) [
  | inl e ↦ absurd (cc (rw e at h))
  | inr e ↦
      let read : span_number 0 0 s ≡ d = some_injective _ d (rw e at h) in
      let (n, whole, skipped) = skip_number s 0 0 k in
      let plain : 0 + n ≡ n = omega arith in
      let count : d.count ≡ n = ap (λ x. x.count) (sym read) ∙ whole ∙ plain in
      ap (λ j. match_all (j + k) s) count ∙ skipped ∙ ap (λ x. match_all k x.rest) read
]
  where
    some_injective : (a b : Digits) → some a ≡ some b → a ≡ b
    some_injective a b e = cc

pub skip-char : (c : Char) (s : String) (k : ℕ) → match_all (k + 1) (String.◌∷◌ c s) ≡ match_all k s
unfolding match_all
skip-char c s k =
    let one : k + 1 ≡ suc k = omega arith in ap (λ j. match_all j (String.◌∷◌ c s)) one
