-- ===== src/Net/ParseFour.antt =====
-- netip's parser of dotted decimal addresses, which net.ParseIP and net.ParseCIDR call.
use ktauth.Prelude.{
  ℕ, ◌+◌, ◌-◌, ◌*◌, Bool, ◌&&◌, ◌||◌, List, [], ◌∷◌, ◌++◌, Option, none, some, ◌==◌, leb, ltb,
  length, if◌then◌else◌,
}

unfoldable pub is_digit : ℕ → Bool
is_digit c = leb b'0' c && leb c b'9'

-- The loop of parseIPv4Fields over what is left of the text. `val` and `digits` are the value and
-- the length of the octet that is read, `done` the octets before it, `start` whether the character
-- before was a dot or none.
unfoldable pub fields_loop : ℕ → ℕ → List ℕ → List ℕ → Option (List ℕ)
unfolding is_digit
fields_loop val digits done [] = if length done == 3 then some (done ++ val ∷ []) else none
fields_loop val digits done (c ∷ s) =
    let digit = fields_loop (val * 10 + (c - b'0')) (digits + 1) done s in
    let dot = fields_loop 0 0 (done ++ val ∷ []) s in
    if is_digit c
    then (if (digits == 1 && val == 0) || ltb 255 (val * 10 + (c - b'0')) then none else digit)
    else if c == b'.'
    then (if digits == 0 || (length s == 0 || length done == 3) then none else dot)
    else none

-- parseIPv4Fields
unfoldable pub parse_ipv4 : List ℕ → Option (List ℕ)
unfolding fields_loop
parse_ipv4 s = fields_loop 0 0 [] s
