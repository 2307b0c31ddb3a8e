-- ===== src/Network/Nflog.antt =====
-- The reading of NFLOG records (internal/network/nflog.go): netlink messages, their attributes, and
-- the IPv4 header. A byte slice is a list of numbers under 256; `big` says whether the host is big
-- endian (binary.NativeEndian). The two walks run on fuel, the length of the bytes that are left.
pub mod Walk
pub mod Messages
pub mod RoundTrip
mod Tests
use micro_hosted.Prelude.{
  ℕ, zero, suc, ◌+◌, ◌-◌, ◌*◌, ◌/◌, ◌%◌, ◌^◌, min, Bool, true, false, not, ◌&&◌, ◌||◌, Option, none,
  some, List, [], ◌∷◌, ◌++◌, String, ltb, leb, ◌==◌, if◌then◌else◌, length, take, drop,
}
use micro_hosted.Network.Address.{Bytes, ip_text}

-- The byte at a place; the code has checked the length before it reads one.
abbrev pub byte_at : Bytes → ℕ → ℕ
byte_at [] i = 0
byte_at (b ∷ bs) zero = b
byte_at (b ∷ bs) (suc i) = byte_at bs i

abbrev pub big16 : ℕ → ℕ → ℕ
big16 a b = a * 256 + b

abbrev pub native16 : Bool → ℕ → ℕ → ℕ
native16 true a b = a * 256 + b
native16 false a b = b * 256 + a

abbrev pub native32 : Bool → ℕ → ℕ → ℕ → ℕ → ℕ
native32 true a b c d = ((a * 256 + b) * 256 + c) * 256 + d
native32 false a b c d = ((d * 256 + c) * 256 + b) * 256 + a

-- PutUint16 and PutUint32.
abbrev pub put16 : Bool → ℕ → Bytes
put16 true v = v / 256 % 256 ∷ v % 256 ∷ []
put16 false v = v % 256 ∷ v / 256 % 256 ∷ []

abbrev pub put32 : Bool → ℕ → Bytes
put32 true v = v / 16777216 % 256 ∷ v / 65536 % 256 ∷ v / 256 % 256 ∷ v % 256 ∷ []
put32 false v = v % 256 ∷ v / 256 % 256 ∷ v / 65536 % 256 ∷ v / 16777216 % 256 ∷ []

-- `(n + 3) &^ 3`.
abbrev pub nl_align : ℕ → ℕ
nl_align n = (n + 3) / 4 * 4

abbrev pub nlmsg_hdrlen : ℕ
nlmsg_hdrlen = 16

pub record NlMessage : Type 0 where
  pub typ : ℕ
  pub seq : ℕ
  pub body : Bytes

-- The loop of `splitNetlink`.
abbrev pub head_length : Bool → Bytes → ℕ
head_length big b = native32 big (byte_at b 0) (byte_at b 1) (byte_at b 2) (byte_at b 3)

abbrev pub head_message : Bool → Bytes → NlMessage
head_message big b = record {
  typ = native16 big (byte_at b 4) (byte_at b 5);
  seq = native32 big (byte_at b 8) (byte_at b 9) (byte_at b 10) (byte_at b 11);
  body = take (head_length big b - nlmsg_hdrlen) (drop nlmsg_hdrlen b);
}

abbrev pub after : ℕ → Bytes → Bytes
after l b = drop (min (nl_align l) (length b)) b

unfoldable pub split_loop : Bool → ℕ → Bytes → List NlMessage
split_loop big zero b = []
split_loop big (suc fuel) b =
    let l = head_length big b in
    let more = head_message big b ∷ split_loop big fuel (after l b) in
    if ltb (length b) nlmsg_hdrlen || (ltb l nlmsg_hdrlen || ltb (length b) l) then [] else more

unfoldable pub split_netlink : Bool → Bytes → List NlMessage
split_netlink big b = split_loop big (length b) b

-- A record; the payload is none until one is read.
pub record NflogPacket : Type 0 where
  pub prefix : Bytes
  pub indev : ℕ
  pub payload : Option Bytes

-- `strings.Cut(s, "\x00")`, the part before.
unfoldable pub before_nul : Bytes → Bytes
before_nul [] = []
before_nul (b ∷ bs) = if b == 0 then [] else (b ∷ before_nul bs)

abbrev pub nfula_ifindex_indev : ℕ
nfula_ifindex_indev = 4

abbrev pub nfula_payload : ℕ
nfula_payload = 9

abbrev pub nfula_prefix : ℕ
nfula_prefix = 10

-- The switch on an attribute's type, whose two highest bits are flags.
unfoldable pub read_attr : ℕ → Bytes → NflogPacket → NflogPacket
read_attr typ v p =
    if typ % 16384 == nfula_prefix
    then record { prefix = before_nul v; indev = p.indev; payload = p.payload }
    else if typ % 16384 == nfula_ifindex_indev
    then record {
      prefix = p.prefix;
      indev =
          if length v == 4
          then native32 true (byte_at v 0) (byte_at v 1) (byte_at v 2) (byte_at v 3)
          else p.indev;
      payload = p.payload;
    }
    else if typ % 16384 == nfula_payload
    then record { prefix = p.prefix; indev = p.indev; payload = some v }
    else p

abbrev pub attr_length : Bool → Bytes → ℕ
attr_length big b = native16 big (byte_at b 0) (byte_at b 1)

abbrev pub attr_type : Bool → Bytes → ℕ
attr_type big b = native16 big (byte_at b 2) (byte_at b 3)

unfoldable pub attrs_loop : Bool → ℕ → Bytes → NflogPacket → NflogPacket
attrs_loop big zero b p = p
attrs_loop big (suc fuel) b p =
    let l = attr_length big b in
    let more =
      attrs_loop big fuel (after l b) (read_attr (attr_type big b) (take (l - 4) (drop 4 b)) p) in
    if ltb (length b) 4 || (ltb l 4 || ltb (length b) l) then p else more

abbrev pub no_packet : NflogPacket
no_packet = record { prefix = []; indev = 0; payload = none }

abbrev has_payload : NflogPacket → Option Bytes → Option NflogPacket
has_payload p none = none
has_payload p (some _) = some p

unfoldable pub parse_nflog_packet : Bool → Bytes → Option NflogPacket
parse_nflog_packet big b =
    let p = attrs_loop big (length (drop 4 b)) (drop 4 b) no_packet in
    if ltb (length b) 4 then none else has_payload p p.payload

-- `read`, after the datagram has been received.
abbrev pub packet_type : ℕ
packet_type = 4 * 256

unfoldable pub packets_of : Bool → List NlMessage → List NflogPacket
packets_of big [] = []
packets_of big (m ∷ ms) =
    let rest = packets_of big ms in
    if m.typ == packet_type
    then elim (parse_nflog_packet big m.body) [ none ↦ rest | some p ↦ p ∷ rest ]
    else rest

unfoldable pub read : Bool → Bytes → List NflogPacket
unfolding packets_of
read big datagram = packets_of big (split_netlink big datagram)

-- What the flow log keeps of a packet. Another protocol is its number.
pub data Protocol : Type 0 where
  tcp udp icmp : Protocol
  numbered : ℕ → Protocol

pub record Ipv4Summary : Type 0 where
  pub proto : Protocol
  pub src : Bytes
  pub dst : Bytes
  pub dst_port : ℕ

abbrev pub protocol : ℕ → Protocol
protocol n = if n == 6 then tcp else if n == 17 then udp else if n == 1 then icmp else numbered n

abbrev pub has_port : Protocol → Bool
has_port tcp = true
has_port udp = true
has_port _ = false

abbrev pub address : Bytes → ℕ → Bytes
address b i =
    ip_text
      (native32 true (byte_at b i) (byte_at b (i + 1)) (byte_at b (i + 2)) (byte_at b (i + 3)))

-- `b[0] >> 4` and `b[0] & 0x0f`.
abbrev pub ihl : Bytes → ℕ
ihl b = byte_at b 0 % 16 * 4

unfoldable pub parse_ipv4 : Bytes → Option Ipv4Summary
parse_ipv4 b =
    if ltb (length b) 20 || not (byte_at b 0 / 16 == 4)
    then none
    else if ltb (ihl b) 20 || ltb (length b) (ihl b)
    then none
    else some (record {
      proto = protocol (byte_at b 9);
      src = address b 12;
      dst = address b 16;
      dst_port =
          if has_port (protocol (byte_at b 9))
            && ((big16 (byte_at b 6) (byte_at b 7) % 8192 == 0) && leb (ihl b + 4) (length b))
          then big16 (byte_at b (ihl b + 2)) (byte_at b (ihl b + 3))
          else 0;
    })

-- `nlAttr`: a slice of zeros of the aligned length, with the header and the value copied into it.
abbrev pub zeros : ℕ → Bytes
zeros zero = []
zeros (suc n) = 0 ∷ zeros n

abbrev pub u16 : ℕ → ℕ
u16 n = n % 65536

unfoldable pub nl_attr : Bool → ℕ → Bytes → Bytes
nl_attr big typ v =
    put16 big (u16 (4 + length v))
    ++ (put16 big typ ++ (v ++ zeros (nl_align (4 + length v) - (4 + length v))))

-- `nfnlMessage`: header, nfgenmsg, attributes.
unfoldable pub nfnl_message : Bool → ℕ → ℕ → ℕ → ℕ → ℕ → Bytes → Bytes
nfnl_message big typ flags seq family res_id attrs =
    put32 big ((20 + length attrs) % 2 ^ 32)
    ++ (put16 big typ
        ++ (put16 big flags
            ++ (put32 big seq ++ (zeros 4 ++ (family ∷ 0 ∷ (put16 true res_id ++ attrs))))))
