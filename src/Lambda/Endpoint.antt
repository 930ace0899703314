-- ===== src/Lambda/Endpoint.antt =====
-- src/test_aws_lambda.cpp: `getEndpoint` and the size of its buffer.
use example.Base.{
  zero, suc, ◌<◌, ◌≡◌, refl, ap, sym, ◌∙◌, Option, none, some, [], ◌∷◌, ◌++◌, arith, leb,
  if◌then◌else◌, length, length-append, All, All-append, Text, append_assoc,
}
use example.Base.Slices.{zeroed, length-zeroed, drop}
use example.Lambda.{write_bytes, c_string, buffer_size, port_suffix, sprintf_endpoint, get_endpoint}

-- A write that fits replaces the front of the buffer, and any other is out of bounds.
write_bytes_lem :
    (buffer bytes : Text)
    → write_bytes buffer bytes ≡ (
        if leb (length bytes) (length buffer)
        then some (bytes ++ drop (length bytes) buffer)
        else none)
unfolding write_bytes
write_bytes_lem buffer [] = ground arith
write_bytes_lem [] (b ∷ bytes) = ground arith
write_bytes_lem (x ∷ buffer) (b ∷ bytes) = ground (arith, write_bytes_lem buffer bytes)

-- A C string has no zero byte.
abbrev pub NonZero : Text → Type 0
NonZero = All (λ c. 0 < c)

c_string-append : (s rest : Text) → NonZero s → c_string (s ++ 0 ∷ rest) ≡ s
c_string-append [] rest h = refl
c_string-append (zero ∷ s) rest h = absurd (omega (arith, h.0))
c_string-append (suc c ∷ s) rest h = ap (◌∷◌ (suc c)) (c_string-append s rest h.1)

suffix_NonZero : NonZero port_suffix
suffix_NonZero = (omega arith, (omega arith, (omega arith, (omega arith, (omega arith, tt)))))

-- The test of the write's size.
fits_iff :
    (hostname buffer : Text)
    → length buffer ≡ 128
    → leb (length (hostname ++ (port_suffix ++ (0 ∷ [])))) (length buffer)
      ≡ leb (length hostname) 122
fits_iff hostname buffer l = rw (l, length-append) ground arith

c_string_lem :
    (hostname rest : Text)
    → NonZero hostname
    → c_string ((hostname ++ (port_suffix ++ (0 ∷ []))) ++ rest) ≡ hostname ++ port_suffix
c_string_lem hostname rest h =
    let split = append_assoc hostname (port_suffix ++ (0 ∷ [])) rest in
    let split' = append_assoc hostname port_suffix (0 ∷ rest) in
    let whole =
      c_string-append (hostname ++ port_suffix) rest
        (All-append (λ c. 0 < c) hostname port_suffix h suffix_NonZero) in
    ap c_string (split ∙ sym split') ∙ whole

endpoint_in :
    (buffer hostname : Text)
    → length buffer ≡ 128
    → NonZero hostname
    → (elim (sprintf_endpoint buffer hostname) as (λ x. Option Text) [
      | none ↦ none
      | some filled ↦ some (c_string filled)
    ])
      ≡ (if leb (length hostname) 122 then some (hostname ++ port_suffix) else none)
unfolding sprintf_endpoint
endpoint_in buffer hostname l h =
    let c =
      c_string_lem hostname (drop (length (hostname ++ (port_suffix ++ (0 ∷ [])))) buffer) h in
    rw (write_bytes_lem, fits_iff hostname buffer l) ground (arith, c)

-- For a host name with no zero byte, `getEndpoint` gives the name with ":4566" behind it when the
-- name has at most 122 bytes, and otherwise writes past the end of its 128 bytes.
pub get_endpoint_cases :
    (hostname : Text)
    → NonZero hostname
    → get_endpoint (some hostname)
      ≡ (if leb (length hostname) 122 then some (hostname ++ port_suffix) else none)
unfolding get_endpoint sprintf_endpoint
get_endpoint_cases hostname h = endpoint_in (zeroed buffer_size) hostname (length-zeroed 128) h
