-- ===== src/Net/Lengths.antt =====
-- netip's parsers and net.CIDRMask: how many bytes they give.
use ktauth.Prelude.{
  ℕ, zero, suc, ◌+◌, ◌-◌, ◌*◌, ◌/◌, ◌%◌, ◌≤◌, Bool, true, false, ◌&&◌, ◌||◌, not, List, [], ◌∷◌,
  ◌++◌, Option, none, some, ◌==◌, leb, ltb, length, Bool-cases, Option-cases, ◌≡◌, ◌∙◌, refl, sym,
  ap, inl, inr, arith,
}
use ktauth.Net.Bytes.{take, drop, replicate, cidr_mask, and_bytes}
use ktauth.Net.ParseFour.{fields_loop, parse_ipv4}
use ktauth.Net.ParseSix.{
  State, is_some, starts_with, parse_hex, trailing_ipv4, after_group, groups_loop, expand_ellipsis,
  parse_groups, parse_ipv6,
}

pub length-++ : (xs ys : List ℕ) → length (xs ++ ys) ≡ length xs + length ys
length-++ [] ys = omega arith
length-++ (x ∷ xs) ys = let e = length-++ xs ys in omega arith

length-replicate : (n x : ℕ) → length (replicate n x) ≡ n
unfolding replicate
length-replicate zero x = refl
length-replicate (suc n) x = let e = length-replicate n x in omega arith

-- What take and drop leave is together what was there.
length-take-drop : (n : ℕ) (xs : List ℕ) → length (take n xs) + length (drop n xs) ≡ length xs
unfolding take drop
length-take-drop zero xs = omega arith
length-take-drop (suc n) [] = omega arith
length-take-drop (suc n) (x ∷ xs) = let e = length-take-drop n xs in omega arith

pub length-drop : (n : ℕ) (xs : List ℕ) → length (drop n xs) ≡ length xs - n
unfolding drop
length-drop zero xs = omega arith
length-drop (suc n) [] = omega arith
length-drop (suc n) (x ∷ xs) = let e = length-drop n xs in omega arith

pub length-cidr_mask : (ones l : ℕ) → length (cidr_mask ones l) ≡ l
unfolding cidr_mask
length-cidr_mask ones zero = refl
length-cidr_mask ones (suc l) = elim (Bool-cases (leb 8 ones)) [
  | inl full ↦ let e = length-cidr_mask (ones - 8) l in rw full (omega arith)
  | inr part ↦ let e = length-cidr_mask 0 l in rw part (omega arith)
]

pub length-and_bytes :
    (xs ms : List ℕ) → length xs ≡ length ms → length (and_bytes xs ms) ≡ length ms
unfolding and_bytes
length-and_bytes [] [] h = refl
length-and_bytes [] (m ∷ ms) h = absurd (omega arith)
length-and_bytes (x ∷ xs) [] h = absurd (omega arith)
length-and_bytes (x ∷ xs) (m ∷ ms) h = let e = length-and_bytes xs ms (omega arith) in omega arith

length-fields_loop :
    (val digits : ℕ) (done s out : List ℕ)
    → fields_loop val digits done s ≡ some out
    → length out ≡ 4
unfolding fields_loop
length-fields_loop val digits done [] out h = ground (arith, length-++ done (val ∷ []))
length-fields_loop val digits done (c ∷ s) out h = ground (
  arith,
  length-fields_loop (val * 10 + (c - b'0')) (digits + 1) done s out,
  length-fields_loop 0 0 (done ++ val ∷ []) s out,
)

pub length-parse_ipv4 : (s out : List ℕ) → parse_ipv4 s ≡ some out → length out ≡ 4
unfolding parse_ipv4
length-parse_ipv4 s out h = length-fields_loop 0 0 [] s out h

-- The bytes that a state has read.
abbrev read : State → ℕ
read (ellipsis, bytes, s) = length bytes

abbrev read_of : Option (Bool × State) → ℕ
read_of none = 0
read_of (some (more, state)) = read state

length-trailing_ipv4 :
    (ellipsis : Option ℕ) (bytes s : List ℕ) (next : State)
    → trailing_ipv4 ellipsis bytes s ≡ some next
    → read next ≤ 16
unfolding trailing_ipv4
length-trailing_ipv4 ellipsis bytes s next h =
    let test : Bool =
      (not (is_some ellipsis) && not (length bytes == 12)) || ltb 16 (length bytes + 4) in
    elim (Bool-cases test) [
      | inl bad ↦ absurd (cc (rw (bad, trailing_ipv4) at h))
      | inr fits ↦ elim (Option-cases (parse_ipv4 s)) [
        | inl unread ↦ absurd (cc (rw (fits, unread, trailing_ipv4) at h))
        | inr (fields, got) ↦
            let same : (ellipsis, bytes ++ fields, []) ≡ next =
              cc (rw (fits, got, trailing_ipv4) at h) in
            let total = length-++ bytes fields in
            let four = length-parse_ipv4 s fields got in
            let out = ap read same in let room : length bytes + 4 ≤ 16 = ground arith in omega arith
      ]
    ]

length-after_group :
    (ellipsis : Option ℕ) (bytes s : List ℕ) (more : Bool) (next : State)
    → after_group ellipsis bytes s ≡ some (more, next)
    → read next ≡ length bytes
unfolding after_group
length-after_group ellipsis bytes [] more next h =
    let same = ap (λ (o : Option (Bool × State)). read_of o) h in sym same
length-after_group ellipsis bytes (c ∷ []) more next h = absurd (cc)
length-after_group ellipsis bytes (c ∷ d ∷ s) more next h = ground (arith, ap read_of h)

length-groups_loop :
    (rounds : ℕ) (state end : State)
    → read state + 2 * rounds ≤ 16
    → groups_loop rounds state ≡ some end
    → read end ≤ 16
unfolding groups_loop
length-groups_loop zero state end h e =
    let same : state ≡ end = cc in let r = ap read same in omega arith
length-groups_loop (suc rounds) (ellipsis, bytes, s) end h e =
    elim (Option-cases (parse_hex 0 0 s)) [
      | inl bad ↦ absurd (cc (rw (bad, groups_loop) at e))
      | inr ((off, acc, rest), read_hex) ↦ elim (Bool-cases (off == 0)) [
        | inl empty ↦ absurd (cc (rw (read_hex, groups_loop, empty) at e))
        | inr digits ↦ elim (Bool-cases (starts_with b'.' rest)) [
          | inl dotted ↦
              length-trailing_ipv4 ellipsis bytes s end
                (rw (read_hex, groups_loop, digits, dotted) at e)
          | inr group ↦
              let grown = bytes ++ (acc / 256) ∷ (acc % 256) ∷ [] in
              let two = length-++ bytes ((acc / 256) ∷ (acc % 256) ∷ []) in
              elim (Option-cases (after_group ellipsis grown rest)) [
                | inl bad ↦ absurd (cc (rw (read_hex, groups_loop, digits, group, bad) at e))
                | inr ((true, next), goes_on) ↦
                    let same = length-after_group ellipsis grown rest true next goes_on in
                    length-groups_loop rounds next end (omega arith)
                      (rw (read_hex, groups_loop, digits, group, goes_on) at e)
                | inr ((false, next), stops) ↦
                    let same = length-after_group ellipsis grown rest false next stops in
                    let last : next ≡ end =
                      cc (rw (read_hex, groups_loop, digits, group, stops) at e) in
                    let r = ap read last in omega arith
              ]
        ]
      ]
    ]

length-expand_ellipsis :
    (end : State) (out : List ℕ) → read end ≤ 16 → expand_ellipsis end ≡ some out → length out ≡ 16
unfolding expand_ellipsis
length-expand_ellipsis (none, bytes, s) out h e = ground arith
length-expand_ellipsis (some k, bytes, s) out h e =
    let split = length-take-drop k bytes in
    let filled = length-replicate (16 - length bytes) 0 in
    let tail = length-++ (replicate (16 - length bytes) 0) (drop k bytes) in
    let all = length-++ (take k bytes) (replicate (16 - length bytes) 0 ++ drop k bytes) in
    ground arith

length-parse_groups :
    (state : State) (out : List ℕ)
    → read state ≡ 0
    → parse_groups state ≡ some out
    → length out ≡ 16
unfolding parse_groups
length-parse_groups state out empty e = elim (Option-cases (groups_loop 8 state)) [
  | inl bad ↦ absurd (cc (rw (bad, parse_groups) at e))
  | inr (end, got) ↦
      length-expand_ellipsis end out (length-groups_loop 8 state end (omega arith) got)
        (rw (got, parse_groups) at e)
]

pub length-parse_ipv6 : (s out : List ℕ) → parse_ipv6 s ≡ some out → length out ≡ 16
unfolding parse_ipv6
length-parse_ipv6 [] out e = length-parse_groups (none, [], []) out refl e
length-parse_ipv6 (c ∷ []) out e = length-parse_groups (none, [], c ∷ []) out refl e
length-parse_ipv6 (c ∷ d ∷ s) out e = elim (Bool-cases (c == b':' && d == b':')) [
  | inr plain ↦ length-parse_groups (none, [], c ∷ d ∷ s) out refl (rw plain at e)
  | inl colons ↦ elim (Bool-cases (length s == 0)) [
    | inl unspecified ↦
        let same : replicate 16 0 ≡ out = cc (rw (colons, unspecified) at e) in
        sym (ap length same) ∙ length-replicate 16 0
    | inr more ↦ length-parse_groups (some 0, [], s) out refl (rw (colons, more) at e)
  ]
]
