-- ===== src/Network/Address/RoundTrip.antt =====
-- Printed addresses, read again.
use mathlib.Core.List.{append-nil}
use micro_hosted.Prelude.{
  ℕ, ◌+◌, ◌*◌, ◌/◌, ◌%◌, ◌^◌, ◌<◌, ◌≡◌, refl, ap, ◌∙◌, some, [], ◌∷◌, ◌++◌, ◌⊎◌, arith, ltb,
  Bool-cases, inl, inr,
}
use micro_hosted.Network.Address.{
  Bytes, dot, digit, octet, ip_text, Reader, read_byte, read, parse_ip, finish,
}

abbrev in_field : ℕ → ℕ → ℕ → ℕ → Reader
in_field value digits fields number = record {
  value = value;
  digits = digits;
  fields = fields;
  number = number;
}

-- a digit of a field that is not a lone zero and stays in a byte
read_digit :
    (v k f n d : ℕ)
    → d < 10
    → v * 10 + d < 256
    → (k ≡ 0) ⊎ (0 < v)
    → read_byte (in_field v k f n) (digit d) ≡ some (in_field (v * 10 + d) (k + 1) f n)
unfolding read_byte
read_digit v k f n d small fits lead = ground arith

read_dot :
    (v k f n : ℕ)
    → 0 < k
    → f < 3
    → read_byte (in_field v k f n) dot ≡ some (in_field 0 0 (f + 1) (n * 256 + v))
unfolding read_byte
read_dot v k f n digits few = ground arith

read-cons :
    (c : ℕ) (s : Bytes) (r : Reader) {r' : Reader}
    → read_byte r c ≡ some r'
    → read (c ∷ s) r ≡ read s r'
unfolding read
read-cons c s r h = ground arith

-- the three lengths of a field
one_digit :
    (a f n : ℕ) (s : Bytes)
    → a < 10
    → read (digit a ∷ s) (in_field 0 0 f n) ≡ read s (in_field a 1 f n)
one_digit a f n s h =
    read-cons (digit a) s (in_field 0 0 f n) (ground (arith, read_digit 0 0 f n a))

two_digits :
    (a b f n : ℕ) (s : Bytes)
    → 0 < a
    → a < 10
    → b < 10
    → read (digit a ∷ digit b ∷ s) (in_field 0 0 f n) ≡ read s (in_field (a * 10 + b) 2 f n)
two_digits a b f n s lead ha hb =
    one_digit a f n (digit b ∷ s) ha
    ∙ read-cons (digit b) s (in_field a 1 f n) (ground (arith, read_digit a 1 f n b))

three_digits :
    (a b c f n : ℕ) (s : Bytes)
    → 0 < a
    → a < 10
    → b < 10
    → c < 10
    → (a * 10 + b) * 10 + c < 256
    → read (digit a ∷ digit b ∷ digit c ∷ s) (in_field 0 0 f n)
      ≡ read s (in_field ((a * 10 + b) * 10 + c) 3 f n)
three_digits a b c f n s lead ha hb hc fits =
    two_digits a b f n (digit c ∷ s) lead ha hb
    ∙ read-cons (digit c) s (in_field (a * 10 + b) 2 f n)
        (ground (arith, read_digit (a * 10 + b) 2 f n c))

-- an octet is read as its value, whatever follows
read-octet :
    (b f n : ℕ) (s : Bytes)
    → b < 256
    → (k : ℕ) × (0 < k) × (read (octet b ++ s) (in_field 0 0 f n) ≡ read s (in_field b k f n))
unfolding octet
read-octet b f n s h = elim (Bool-cases (ltb b 10)) [
  | inl one ↦ (1, omega arith, rw one (one_digit b f n s (ground arith)))
  | inr more ↦ elim (Bool-cases (ltb b 100)) [
    | inl two ↦ (
      2,
      omega arith,
      rw (more, two)
          (two_digits (b / 10) (b % 10) f n s (ground arith) (ground arith) (omega arith)
            ∙ ap (λ v. read s (in_field v 2 f n)) (omega arith)),
    )
    | inr three ↦ (
      3,
      omega arith,
      rw (more, three)
          (three_digits (b / 100) (b / 10 % 10) (b % 10) f n s (ground arith) (omega arith)
              (omega arith) (omega arith) (omega arith)
            ∙ ap (λ v. read s (in_field v 3 f n)) (omega arith)),
    )
  ]
]

-- a field and the dot behind it
read-octet-dot :
    (b f n g m : ℕ) (s : Bytes)
    → b < 256
    → f < 3
    → g ≡ f + 1
    → m ≡ n * 256 + b
    → read (octet b ++ (dot ∷ s)) (in_field 0 0 f n) ≡ read s (in_field 0 0 g m)
read-octet-dot b f n g m s h few eg em =
    let (k, pos, e) = read-octet b f n (dot ∷ s) h in
    e ∙ read-cons dot s (in_field b k f n) (rw (eg, em) (read_dot b k f n pos few))

finish_field : (v k n : ℕ) → 0 < k → finish (read [] (in_field v k 3 n)) ≡ some (n * 256 + v)
unfolding read
finish_field v k n h = ground arith

-- The number of a dotted text's fields.
from_octets :
    (a b c d : ℕ)
    → a < 256
    → b < 256
    → c < 256
    → d < 256
    → parse_ip (octet a ++ (dot ∷ (octet b ++ (dot ∷ (octet c ++ (dot ∷ octet d))))))
      ≡ some (((a * 256 + b) * 256 + c) * 256 + d)
unfolding parse_ip
from_octets a b c d ha hb hc hd =
    let (k, pos, e) = read-octet d 3 ((a * 256 + b) * 256 + c) [] hd in
    ap finish (
      read-octet-dot a 0 0 1 a _ ha (omega arith) (omega arith) (omega arith)
      ∙ read-octet-dot b 1 a 2 (a * 256 + b) _ hb (omega arith) (omega arith) refl
      ∙ read-octet-dot c 2 (a * 256 + b) 3 ((a * 256 + b) * 256 + c) _ hc (omega arith)
          (omega arith) refl
      ∙ (rw append-nil at e))
    ∙ finish_field d k ((a * 256 + b) * 256 + c) pos

-- An address that fits 32 bits reads back from its text.
pub parse_ip-ip_text : (v : ℕ) → v < 2 ^ 32 → parse_ip (ip_text v) ≡ some v
unfolding ip_text
parse_ip-ip_text v h =
    from_octets (v / 2 ^ 24 % 256) (v / 2 ^ 16 % 256) (v / 2 ^ 8 % 256) (v % 256) (omega arith)
      (omega arith) (omega arith) (omega arith)
    ∙ ap some (omega arith)
