-- ===== src/Network/Nflog/Messages.antt =====
-- One message and one attribute, written and read again (internal/network/nflog.go).
use micro_hosted.Prelude.{
  ℕ, zero, suc, ◌+◌, ◌-◌, ◌/◌, ◌%◌, ◌^◌, ◌<◌, min, ◌≡◌, refl, ap, ◌∙◌, Bool, true, false, List, [],
  ◌∷◌, ◌++◌, length, take, length-append, append_assoc, take-append_all, drop-append_right, arith,
}
use micro_hosted.Network.Address.{Bytes}
use micro_hosted.Network.Nflog.{
  after, split_netlink, NlMessage, NflogPacket, read_attr, nl_align, nl_attr, nfnl_message, put16,
  put32, native16, native32, zeros, u16, byte_at,
}
use micro_hosted.Network.Nflog.Walk.{
  split_netlink_lem, ends_messages, ends_attrs, attrs, attrs-step,
}

native16-put16 :
    (big : Bool) (v : ℕ) (rest : Bytes)
    → v < 65536
    → native16 big (byte_at (put16 big v ++ rest) 0) (byte_at (put16 big v ++ rest) 1) ≡ v
native16-put16 true v rest h = omega arith
native16-put16 false v rest h = omega arith

pub native32-put32 :
    (big : Bool) (v : ℕ) (rest : Bytes)
    → v < 4294967296
    → native32 big
        (byte_at (put32 big v ++ rest) 0)
        (byte_at (put32 big v ++ rest) 1)
        (byte_at (put32 big v ++ rest) 2)
        (byte_at (put32 big v ++ rest) 3)
      ≡ v
native32-put32 true v rest h = omega arith
native32-put32 false v rest h = omega arith

length-zeros : (n : ℕ) → length (zeros n) ≡ n
length-zeros zero = refl
length-zeros (suc n) = omega (arith, length-zeros n)

-- One attribute with its padding, and what follows it.
attrs_read :
    (big : Bool) (a b c d : ℕ) (v pad rest : Bytes) (p : NflogPacket)
    → native16 big a b ≡ 4 + length v
    → 4 + (length v + length pad) ≡ nl_align (4 + length v)
    → attrs big (a ∷ b ∷ c ∷ d ∷ ((v ++ pad) ++ rest)) p
      ≡ attrs big rest (read_attr (native16 big c d) v p)
attrs_read big a b c d v pad rest p known padded =
    let whole = a ∷ b ∷ c ∷ d ∷ ((v ++ pad) ++ rest) in
    let sizes = length-append (v ++ pad) rest in
    let inner = length-append v pad in
    let value : take (native16 big a b - 4) ((v ++ pad) ++ rest) ≡ v =
      ap (take (native16 big a b - 4)) (append_assoc v pad rest)
      ∙ take-append_all v (pad ++ rest) (native16 big a b - 4) (omega (arith, known)) in
    let left : after (native16 big a b) whole ≡ rest =
      drop-append_right (a ∷ b ∷ c ∷ d ∷ (v ++ pad)) rest
        (min (nl_align (native16 big a b)) (length whole)) 0
        (omega (arith, known, padded, sizes, inner)) in
    let goes_on : ends_attrs big whole ≡ false = ground (arith, known, sizes, inner) in
    attrs-step big whole p ∙ ground (arith, goes_on, value, left)

pub attrs-nl_attr :
    (big : Bool) (typ : ℕ) (v rest : Bytes) (p : NflogPacket)
    → typ < 65536
    → 4 + length v < 65536
    → attrs big (nl_attr big typ v ++ rest) p ≡ attrs big rest (read_attr typ v p)
unfolding nl_attr
attrs-nl_attr true typ v rest p in_type in_length =
    let pad = zeros (nl_align (4 + length v) - (4 + length v)) in
    attrs_read true (u16 (4 + length v) / 256 % 256) (u16 (4 + length v) % 256) (typ / 256 % 256)
      (typ % 256) v pad rest p (omega (arith, in_length))
      (omega (arith, length-zeros (nl_align (4 + length v) - (4 + length v))))
    ∙ ap (λ t. attrs true rest (read_attr t v p)) (omega (arith, in_type))
attrs-nl_attr false typ v rest p in_type in_length =
    let pad = zeros (nl_align (4 + length v) - (4 + length v)) in
    attrs_read false (u16 (4 + length v) % 256) (u16 (4 + length v) / 256 % 256) (typ % 256)
      (typ / 256 % 256) v pad rest p (omega (arith, in_length))
      (omega (arith, length-zeros (nl_align (4 + length v) - (4 + length v))))
    ∙ ap (λ t. attrs false rest (read_attr t v p)) (omega (arith, in_type))

pub length-nl_attr :
    (big : Bool) (typ : ℕ) (v : Bytes) → length (nl_attr big typ v) ≡ nl_align (4 + length v)
unfolding nl_attr
length-nl_attr true typ v =
    let n = nl_align (4 + length v) - (4 + length v) in
    omega (arith, length-append v (zeros n), length-zeros n)
length-nl_attr false typ v =
    let n = nl_align (4 + length v) - (4 + length v) in
    omega (arith, length-append v (zeros n), length-zeros n)

-- The message of sixteen known bytes and a body.
split_read :
    (big : Bool) (l0 l1 l2 l3 t0 t1 f0 f1 s0 s1 s2 s3 p0 p1 p2 p3 : ℕ) (body rest : Bytes)
    → native32 big l0 l1 l2 l3 ≡ 16 + length body
    → nl_align (16 + length body) ≡ 16 + length body
    → split_netlink big (
        l0
        ∷ l1
        ∷ l2
        ∷ l3
        ∷ t0
        ∷ t1
        ∷ f0
        ∷ f1
        ∷ s0
        ∷ s1
        ∷ s2
        ∷ s3
        ∷ p0
        ∷ p1
        ∷ p2
        ∷ p3
        ∷ (body ++ rest))
      ≡ record { typ = native16 big t0 t1; seq = native32 big s0 s1 s2 s3; body = body }
        ∷ split_netlink big rest
split_read big l0 l1 l2 l3 t0 t1 f0 f1 s0 s1 s2 s3 p0 p1 p2 p3 body rest known aligned =
    let head =
      l0 ∷ l1 ∷ l2 ∷ l3 ∷ t0 ∷ t1 ∷ f0 ∷ f1 ∷ s0 ∷ s1 ∷ s2 ∷ s3 ∷ p0 ∷ p1 ∷ p2 ∷ p3 ∷ body in
    let sizes = length-append body rest in
    let inside = take-append_all body rest (native32 big l0 l1 l2 l3 - 16) (omega (arith, known)) in
    let left : after (native32 big l0 l1 l2 l3) (head ++ rest) ≡ rest =
      drop-append_right head rest
        (min (nl_align (native32 big l0 l1 l2 l3)) (length (head ++ rest))) 0
        (omega (arith, known, aligned, sizes)) in
    let goes_on : ends_messages big (head ++ rest) ≡ false = ground (arith, known, sizes) in
    split_netlink_lem big (head ++ rest) ∙ ground (arith, goes_on, inside, left)

message_eq :
    {t t' s s' : ℕ} {body : Bytes} (more : List NlMessage)
    → t ≡ t'
    → s ≡ s'
    → ◌≡◌ {A = List NlMessage}
        (record { typ = t; seq = s; body = body } ∷ more)
        (record { typ = t'; seq = s'; body = body } ∷ more)
message_eq more h k = cc

-- A message that begins with twenty bytes of a known length and kind.
pub split_netlink-nfnl_message :
    (big : Bool) (typ flags seq family res_id : ℕ) (attributes rest : Bytes)
    → typ < 65536
    → seq < 4294967296
    → length attributes % 4 ≡ 0
    → 20 + length attributes < 4294967296
    → split_netlink big (nfnl_message big typ flags seq family res_id attributes ++ rest)
      ≡ record {
        typ = typ;
        seq = seq;
        body = family ∷ 0 ∷ (res_id / 256 % 256) ∷ (res_id % 256) ∷ attributes;
      }
        ∷ split_netlink big rest
unfolding nfnl_message
split_netlink-nfnl_message true typ flags seq family res_id attributes rest h1 h2 h3 h4 =
    split_read true _ _ _ _ _ _ _ _ _ _ _ _ 0 0 0 0
      (family ∷ 0 ∷ (res_id / 256 % 256) ∷ (res_id % 256) ∷ attributes) rest
      (native32-put32 true ((20 + length attributes) % 2 ^ 32) [] (omega (arith, h4))
        ∙ omega (arith, h4))
      (omega (arith, h3))
    ∙ message_eq (split_netlink true rest) (native16-put16 true typ [] h1)
        (native32-put32 true seq [] h2)
split_netlink-nfnl_message false typ flags seq family res_id attributes rest h1 h2 h3 h4 =
    split_read false _ _ _ _ _ _ _ _ _ _ _ _ 0 0 0 0
      (family ∷ 0 ∷ (res_id / 256 % 256) ∷ (res_id % 256) ∷ attributes) rest
      (native32-put32 false ((20 + length attributes) % 2 ^ 32) [] (omega (arith, h4))
        ∙ omega (arith, h4))
      (omega (arith, h3))
    ∙ message_eq (split_netlink false rest) (native16-put16 false typ [] h1)
        (native32-put32 false seq [] h2)
