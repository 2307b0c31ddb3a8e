-- ===== src/Network/Address.antt =====
-- IPv4 addresses as the network code reads and writes them: `uint32ToIP(v).String()` of
-- internal/network/ipam.go, and `net.ParseIP(s).To4()` on dotted texts. An address is the number
-- of its four bytes, big-endian; a text is the list of its bytes.
pub mod RoundTrip
use micro_hosted.Prelude.{
  ℕ, zero, suc, ◌+◌, ◌-◌, ◌*◌, ◌/◌, ◌%◌, ◌^◌, Bool, true, false, ◌&&◌, ◌||◌, Option, none, some,
  List, [], ◌∷◌, ◌++◌, ltb, leb, ◌==◌, if◌then◌else◌,
}

abbrev pub Bytes : Type 0
Bytes = List ℕ

abbrev pub dot : ℕ
dot = b'.'

abbrev pub digit : ℕ → ℕ
digit d = b'0' + d

-- One byte in decimal, without leading zeros.
unfoldable pub octet : ℕ → Bytes
octet b =
    if ltb b 10
    then digit b ∷ []
    else if ltb b 100
    then digit (b / 10) ∷ digit (b % 10) ∷ []
    else digit (b / 100) ∷ digit (b / 10 % 10) ∷ digit (b % 10) ∷ []

-- `uint32ToIP(v).String()`.
unfoldable pub ip_text : ℕ → Bytes
unfolding octet
ip_text v =
    octet (v / 2 ^ 24 % 256)
    ++ (dot
        ∷ (octet (v / 2 ^ 16 % 256)
            ++ (dot ∷ (octet (v / 2 ^ 8 % 256) ++ (dot ∷ octet (v % 256))))))

abbrev pub is_digit : ℕ → Bool
is_digit c = leb b'0' c && leb c b'9'

-- The reader's state: the value and the number of digits of the field it is in, the fields
-- before it, and the number that they make.
pub record Reader : Type 0 where
  pub value : ℕ
  pub digits : ℕ
  pub fields : ℕ
  pub number : ℕ

abbrev pub start : Reader
start = record { value = 0; digits = 0; fields = 0; number = 0 }

-- A digit: no leading zero, and no field above 255.
unfoldable pub take_digit : Reader → ℕ → Option Reader
take_digit r d =
    if r.digits == 1 && r.value == 0
    then none
    else if ltb 255 (r.value * 10 + d)
    then none
    else some (record r { value = r.value * 10 + d; digits = r.digits + 1 })

-- A dot: it ends a field that has digits, and only three of them.
unfoldable pub end_field : Reader → Option Reader
end_field r =
    if r.digits == 0 || r.fields == 3
    then none
    else some
        (record { value = 0; digits = 0; fields = r.fields + 1; number = r.number * 256 + r.value })

unfoldable pub read_byte : Reader → ℕ → Option Reader
unfolding take_digit end_field
read_byte r c =
    if is_digit c then take_digit r (c - b'0') else if c == dot then end_field r else none

unfoldable pub read : Bytes → Reader → Option Reader
read [] r = some r
read (c ∷ s) r = elim (read_byte r c) [ none ↦ none | some r' ↦ read s r' ]

abbrev finish : Option Reader → Option ℕ
finish none = none
finish (some r) =
    if r.digits == 0 then none else if r.fields == 3 then some (r.number * 256 + r.value) else none

-- `net.ParseIP(s).To4()` as a number; `none` is nil.
unfoldable pub parse_ip : Bytes → Option ℕ
unfolding read read_byte
parse_ip s = finish (read s start)
