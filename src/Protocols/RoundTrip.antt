-- ===== src/Protocols/RoundTrip.antt =====
-- The Status-Line that a server writes is the one that is read.
use Prim.Native.Char.{Char, code, IsScalar}
use Prim.Native.String.{[], ◌∷◌}
use polaris_gslb.Prelude.{
  ℕ, zero, suc, ◌+◌, ◌-◌, ◌*◌, ◌/◌, ◌%◌, ◌≤◌, ◌<◌, ◌≡◌, refl, ap, ◌∙◌, String, Bool, true, false,
  some, eqb, lower_code, arith, append_text, if◌then◌else◌, Bool-cases, inl, inr,
}
use polaris_gslb.Protocols.Status.{
  take_text, is_digit, scan_char, scan_digit, scan_number, scan_reason, ◌then?◌, after_number,
  scan_status, search, find_status,
}

pub digit-IsScalar : (d : ℕ) → IsScalar (48 + d % 10)
digit-IsScalar d = ground arith

-- the last digit of a number
abbrev pub digit : ℕ → Char
digit d = Char.char (48 + d % 10) (digit-IsScalar d)

-- A Status-Line with a code of three digits, as RFC 7230 has it.
abbrev pub status_line : ℕ → String → String
status_line status reason = append_text "HTTP/1.1 " (
    digit (status / 100)
    ∷ digit (status / 10)
    ∷ digit status
    ∷ (append_text " " (append_text reason "\r\n")))

abbrev pub has_cr : String → Bool
has_cr [] = false
has_cr (c ∷ s) = if eqb (code c) 13 then true else has_cr s

abbrev pub size : String → ℕ
size [] = 0
size (c ∷ s) = suc (size s)

append_text_assoc :
    (s t u : String) → append_text (append_text s t) u ≡ append_text s (append_text t u)
append_text_assoc [] t u = refl
append_text_assoc (c ∷ s) t u = ap (λ x. c ∷ x) (append_text_assoc s t u)

take_text-append :
    (n : ℕ) (s t : String)
    → size s ≤ n
    → (t' : String) × (take_text n (append_text s t) ≡ append_text s t')
unfolding take_text
take_text-append n [] t h = (take_text n t, refl)
take_text-append zero (c ∷ s) t h = absurd (omega arith)
take_text-append (suc n) (c ∷ s) t h =
    let (t', e) = take_text-append n s t (omega arith) in (t', ap (λ x. c ∷ x) e)

digit-is_digit : (d : ℕ) → is_digit (digit d) ≡ true
digit-is_digit d = ground arith

scan_number-digit :
    (m d : ℕ) (s : String) → scan_number m (digit d ∷ s) ≡ scan_number (m * 10 + d % 10) s
unfolding scan_number
scan_number-digit m d s =
    let value : m * 10 + (48 + d % 10 - 48) ≡ m * 10 + d % 10 = omega arith in
    rw (digit-is_digit d) (ap (λ k. scan_number k s) value)

scan_number-space :
    (m : ℕ) (s : String) → scan_number m (append_text " " s) ≡ (m, append_text " " s)
unfolding scan_number
scan_number-space m s = refl

-- the three digits of a code, and a space
abbrev code_then : ℕ → String → String
code_then status s = digit (status / 100) ∷ digit (status / 10) ∷ digit status ∷ (append_text " " s)

scan_number-code_then :
    (status : ℕ) (s : String)
    → status < 1000
    → scan_number 0 (code_then status s) ≡ (status, append_text " " s)
scan_number-code_then status s h =
    let first = 0 * 10 + status / 100 % 10 in
    let second = first * 10 + status / 10 % 10 in
    let value : second * 10 + status % 10 ≡ status = omega (arith, h) in
    scan_number-digit 0 (status / 100) (digit (status / 10) ∷ digit status ∷ (append_text " " s))
    ∙ scan_number-digit first (status / 10) (digit status ∷ (append_text " " s))
    ∙ scan_number-digit second status (append_text " " s)
    ∙ scan_number-space _ s
    ∙ ap (λ k. (k, append_text " " s)) value

scan_reason-line :
    (reason t : String)
    → has_cr reason ≡ false
    → scan_reason (append_text reason (append_text "\r\n" t)) ≡ some (reason, append_text "\n" t)
unfolding scan_reason
scan_reason-line [] t h = refl
scan_reason-line (c ∷ reason) t h = elim (Bool-cases (eqb (code c) 13)) [
  | inl cr ↦ let h' = rw cr at h in cc
  | inr other ↦ rw (other, scan_reason-line reason t (rw other at h)) refl
]

scan_status-eq :
    (s : String) → scan_status s ≡ (scan_digit s then? (λ _. after_number (scan_number 0 s)))
unfolding scan_status
scan_status-eq s = refl

scan_digit-digit : (d : ℕ) (s : String) → scan_digit (digit d ∷ s) ≡ some s
unfolding scan_digit
scan_digit-digit d s = rw (digit-is_digit d) refl

after_number-line :
    (status : ℕ) (reason t : String)
    → has_cr reason ≡ false
    → after_number (status, append_text " " (append_text reason (append_text "\r\n" t)))
      ≡ some (status, reason)
unfolding scan_char lower_code
after_number-line status reason t no_cr = rw (scan_reason-line reason t no_cr) refl

scan_status-code_then :
    (status : ℕ) (reason t : String)
    → status < 1000
    → has_cr reason ≡ false
    → scan_status (code_then status (append_text reason (append_text "\r\n" t)))
      ≡ some (status, reason)
scan_status-code_then status reason t h no_cr =
    let s = append_text reason (append_text "\r\n" t) in
    scan_status-eq (code_then status s)
    ∙ ap (λ o. o then? (λ _. after_number (scan_number 0 (code_then status s))))
        (scan_digit-digit (status / 100) (digit (status / 10) ∷ digit status ∷ (append_text " " s)))
    ∙ ap after_number (scan_number-code_then status s h)
    ∙ after_number-line status reason t no_cr

search-eq : (s : String) → search (append_text "HTTP/1.1 " s) ≡ scan_status s
unfolding search scan_char scan_digit lower_code
search-eq s = refl

search-status_line :
    (status : ℕ) (reason t : String)
    → status < 1000
    → has_cr reason ≡ false
    → search (append_text (status_line status reason) t) ≡ some (status, reason)
search-status_line status reason t h no_cr =
    ap (λ s. search (append_text "HTTP/1.1 " (code_then status s)))
      (append_text_assoc reason "\r\n" t)
    ∙ search-eq (code_then status (append_text reason (append_text "\r\n" t)))
    ∙ scan_status-code_then status reason t h no_cr

-- A Status-Line of three digits and a reason without a carriage return that fits into 128 characters
-- is read from a response as it was written, whatever follows it.
pub find_status-status_line :
    (status : ℕ) (reason rest : String)
    → status < 1000
    → has_cr reason ≡ false
    → size (status_line status reason) ≤ 128
    → find_status (append_text (status_line status reason) rest) ≡ some (status, reason)
unfolding find_status
find_status-status_line status reason rest three_digits no_cr fits =
    let (t, taken) = take_text-append 128 (status_line status reason) rest fits in
    ap search taken ∙ search-status_line status reason t three_digits no_cr
