-- ===== src/Chat/Pattern/Numbers.antt =====
-- A number that was shown is read again.
use Prim.Native.Char.{Char, code}
use text.Mathlib.TextLemmas.{append_assoc, cons-append, nil-append}
use code_trace.Prelude.{
  ℕ, zero, suc, ◌+◌, ◌-◌, ◌*◌, ◌/◌, ◌%◌, ◌<◌, String, ◌≡◌, refl, ◌∙◌, ap, inl, inr, true, false,
  some, is_digit, arith, Bool-cases, leb, nat_eq, show, show_within, digit, ◌+++◌,
}
use code_trace.Chat.Pattern.{span_number, number}

digit_lem :
    (d : ℕ)
    → d < 10
    → (c : Char) × (digit d ≡ String.◌∷◌ c "") × (is_digit (code c) ≡ true) × (code c - b'0' ≡ d)
unfolding digit
digit_lem zero h = ("0", refl, refl, refl)
digit_lem (suc zero) h = ("1", refl, refl, refl)
digit_lem (suc (suc zero)) h = ("2", refl, refl, refl)
digit_lem (suc (suc (suc zero))) h = ("3", refl, refl, refl)
digit_lem (suc (suc (suc (suc zero)))) h = ("4", refl, refl, refl)
digit_lem (suc (suc (suc (suc (suc zero))))) h = ("5", refl, refl, refl)
digit_lem (suc (suc (suc (suc (suc (suc zero)))))) h = ("6", refl, refl, refl)
digit_lem (suc (suc (suc (suc (suc (suc (suc zero))))))) h = ("7", refl, refl, refl)
digit_lem (suc (suc (suc (suc (suc (suc (suc (suc zero)))))))) h = ("8", refl, refl, refl)
digit_lem (suc (suc (suc (suc (suc (suc (suc (suc (suc zero))))))))) h = ("9", refl, refl, refl)
digit_lem (suc (suc (suc (suc (suc (suc (suc (suc (suc (suc d)))))))))) h = absurd (omega arith)

pub push : (c : Char) (t : String) → String.◌∷◌ c "" +++ t ≡ String.◌∷◌ c t
push c t = cons-append c "" t ∙ ap (String.◌∷◌ c) (nil-append t)

span_number-digit :
    (value count d : ℕ) (s : String)
    → d < 10
    → span_number value count (digit d +++ s) ≡ span_number (value * 10 + d) (suc count) s
unfolding span_number
span_number-digit value count d s h =
    let (c, shown, is, worth) = digit_lem d h in
    ap (λ t. span_number value count (t +++ s)) shown
    ∙ ap (span_number value count) (push c s)
    ∙ rw is (ap (λ w. span_number (value * 10 + w) (suc count) s) worth)

span_number-show_within :
    (f n : ℕ) (s : String)
    → n < f
    → (k : ℕ) × (span_number 0 0 (show_within f n +++ s) ≡ span_number n (suc k) s)
unfolding show_within
span_number-show_within zero n s h = absurd (omega arith)
span_number-show_within (suc f) n s h = elim (Bool-cases (leb 10 n)) [
  | inl e ↦
      let (k, front) = span_number-show_within f (n / 10) (digit (n % 10) +++ s) (ground arith) in
      (
        suc k,
        rw e (
            ap (span_number 0 0) (append_assoc (show_within f (n / 10)) (digit (n % 10)) s)
            ∙ front
            ∙ span_number-digit (n / 10) (suc k) (n % 10) s (omega arith)
            ∙ ap (λ v. span_number v (suc (suc k)) s) (omega arith)),
      )
  | inr e ↦ (
    0,
    rw e (span_number-digit 0 0 n s (ground arith) ∙ ap (λ v. span_number v 1 s) (omega arith)),
  )
]

span_number-stops :
    (value count : ℕ) (c : Char) (s : String)
    → is_digit (code c) ≡ false
    → span_number value count (String.◌∷◌ c s)
      ≡ record { value = value; count = count; rest = String.◌∷◌ c s }
unfolding span_number
span_number-stops value count c s h = rw h refl

pub nat_eq-suc : (k : ℕ) → nat_eq (suc k) 0 ≡ false
nat_eq-suc k = ground arith

pub number-show :
    (n : ℕ) (c : Char) (s : String)
    → is_digit (code c) ≡ false
    → (k : ℕ) × (number (show n +++ String.◌∷◌ c s)
        ≡ some (record { value = n; count = suc k; rest = String.◌∷◌ c s }))
unfolding number show
number-show n c s h =
    let (k, read) = span_number-show_within (suc n) n (String.◌∷◌ c s) (omega arith) in
    let whole = read ∙ span_number-stops n (suc k) c s h in (k, rw (whole, nat_eq-suc k) refl)
