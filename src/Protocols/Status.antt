-- ===== src/Protocols/Status.antt =====
-- polaris_health/protocols/http.py, HTTPResponse: the Status-Line of a response. The regular
-- expression `^HTTP\/\d\.\d (\d+) ([^\r]*)\r\n`, without case, is a scan from left to right: none of
-- its parts can end in more than one place. `\d` stands for the ASCII digits.
use Prim.Native.Char.{Char, code}
use polaris_gslb.Prelude.{
  ◌≡◌, refl, ℕ, zero, suc, ◌+◌, ◌-◌, ◌*◌, String, Bool, ◌&&◌, Option, none, some, eqb, leb,
  if◌then◌else◌, lower_code,
}
use Prim.Native.String.{[], ◌∷◌}
use polaris_gslb.Prelude.Result.{Result, ok, or_raise, protocol_error, ◌>>=◌}

-- s[:n]
unfoldable pub take_text : ℕ → String → String
take_text zero s = []
take_text (suc n) [] = []
take_text (suc n) (c ∷ s) = c ∷ take_text n s

abbrev pub is_digit : Char → Bool
is_digit c = leb 48 (code c) && leb (code c) 57

-- One character of the expression, without case.
unfoldable pub scan_char : ℕ → String → Option String
scan_char n [] = none
scan_char n (c ∷ s) = if eqb (lower_code (code c)) n then some s else none

unfoldable pub scan_digit : String → Option String
scan_digit [] = none
scan_digit (c ∷ s) = if is_digit c then some s else none

-- \d*, read as a number that starts with `n`
unfoldable pub scan_number : ℕ → String → ℕ × String
scan_number n [] = (n, [])
scan_number n (c ∷ s) =
    let more = scan_number (n * 10 + (code c - 48)) s in if is_digit c then more else (n, c ∷ s)

abbrev pub cons_reason : Char → Option (String × String) → Option (String × String)
cons_reason c none = none
cons_reason c (some (reason, rest)) = some (c ∷ reason, rest)

-- ([^\r]*)\r
unfoldable pub scan_reason : String → Option (String × String)
scan_reason [] = none
scan_reason (c ∷ s) =
    let more = scan_reason s in if eqb (code c) 13 then some ([], s) else cons_reason c more

infixl 5 ◌then?◌
abbrev pub ◌then?◌ {ℓ κ} : {A : Type ℓ} {B : Type κ} → Option A → (A → Option B) → Option B
none then? f = none
some a then? f = f a

abbrev pub StatusLine : Type 0
StatusLine = ℕ × String

abbrev pub end_line : ℕ → Option (String × String) → Option StatusLine
end_line status none = none
end_line status (some (reason, rest)) = scan_char 10 rest then? (λ _. some (status, reason))

abbrev pub after_number : ℕ × String → Option StatusLine
after_number (status, rest) = scan_char 32 rest then? (λ rest'. end_line status (scan_reason rest'))

-- \d+ and what follows it
unfoldable pub scan_status : String → Option StatusLine
unfolding scan_digit scan_number scan_char scan_reason
scan_status s = scan_digit s then? (λ _. after_number (scan_number 0 s))

-- _STATUS_LINE_RE.search(s), with the groups 1 and 2
unfoldable pub search : String → Option StatusLine
unfolding scan_char scan_digit scan_status
search s =
    scan_char b'h' s
    then? scan_char b't'
    then? scan_char b't'
    then? scan_char b'p'
    then? scan_char b'/'
    then? scan_digit
    then? scan_char b'.'
    then? scan_digit
    then? scan_char b' '
    then? scan_status

-- _parse_status: the Status-Line stands in the first 128 characters
unfoldable pub find_status : String → Option StatusLine
unfolding search take_text
find_status raw = search (take_text 128 raw)

-- HTTPResponse
pub record HttpResponse : Type 0 where
  pub raw : String
  pub status_code : ℕ
  pub status_reason : String

unfoldable pub new : String → Result HttpResponse
unfolding find_status
new raw = do
  status ← or_raise (find_status raw) protocol_error
  ok (record { raw = raw; status_code = status.0; status_reason = status.1 })

find_status-example : find_status "Http/1.1 404 Not Found\r\nServer: x" ≡ some (404, "Not Found")
unfolding find_status take_text lower_code
find_status-example = refl
