-- ===== src/Http/Message/Decimal.antt =====
-- src/tudou/http/HttpResponse.cpp: the decimal numbers and the text of a response.
use tudou.Prelude.{
  ℕ, zero, suc, ◌+◌, ◌-◌, ◌*◌, ◌/◌, ◌%◌, ◌≤◌, ◌<◌, ◌≡◌, refl, inl, inr, List, [], ◌∷◌, ◌++◌, some,
  arith, length, Bool-cases, ltb, Text, text, lookup, insert, text_key, text_eq,
}
use tudou.Http.Message.{
  digits, to_string, plain_text, set_header, set_body, package_to_string, status_line, header_lines,
  crlf,
}

-- What a decimal number stands for, behind the number `acc`.
abbrev decimal : ℕ → Text → ℕ
decimal acc [] = acc
decimal acc (c ∷ cs) = decimal (acc * 10 + (c - 48)) cs

decimal_snoc : (cs : Text) (acc c : ℕ) → decimal acc (cs ++ c ∷ []) ≡ decimal acc cs * 10 + (c - 48)
decimal_snoc [] acc c = refl
decimal_snoc (x ∷ cs) acc c = decimal_snoc cs (acc * 10 + (x - 48)) c

decimal-digits : (fuel n : ℕ) → n < fuel → decimal 0 (digits fuel n) ≡ n
decimal-digits zero n h = absurd (omega arith)
decimal-digits (suc fuel) n h = elim (Bool-cases (ltb n 10)) [
  | inl small ↦ let below : n < 10 = ground arith in rw (digits, small) (omega (arith, below))
  | inr large ↦
      let above : 10 ≤ n = ground arith in
      rw
        (
          digits,
          large,
          decimal_snoc (digits fuel (n / 10)) 0 (48 + n % 10),
          decimal-digits fuel (n / 10) (omega (arith, h, above)),
        )
        (omega arith)
]

-- `std::to_string` is read back as the number.
decimal-to_string : (n : ℕ) → decimal 0 (to_string n) ≡ n
unfolding to_string
decimal-to_string n = decimal-digits (suc n) n (omega arith)

-- A plain text response tells the length of its body, and its text is the status line, the
-- headers in whichever order, the request to close, an empty line and the body.
package_plain_text :
    (order : List (Text × Text) → List (Text × Text)) (code : ℕ) (message body : Text)
    → let r = plain_text code message body in
      ((t : Text) × (lookup (text "Content-Length") r.headers ≡ some t)
        × (decimal 0 t ≡ length body))
      × (package_to_string order r
          ≡ status_line r
            ++ (header_lines (order r.headers)
                ++ (text "Connection: close" ++ (crlf ++ (crlf ++ body)))))
unfolding plain_text set_header set_body package_to_string lookup insert text_eq
package_plain_text order code message body =
    ((to_string (length body), refl, decimal-to_string (length body)), refl)
