-- ===== src/Events/Resume.antt =====
-- What a subscriber that comes back is given: the events that it missed, or a reset.
use micro_hosted.Prelude.{
  ℕ, zero, suc, ◌+◌, ◌-◌, ◌≤◌, ◌<◌, ◌≡◌, refl, ap, sym, ◌∙◌, subst, Bool, true, false, none, some,
  List, [], ◌∷◌, String, arith, length, drop, length-drop, drop-drop, Bool-cases, inl, inr, leb,
  ltb, str_eq, eq_refl, eq_iff, ◌≢◌, if◌then◌else◌,
}
use micro_hosted.Events.{
  Event, Bus, new_epoch, gap, backlog, subscribe, position, first_seq, is_empty,
}
use micro_hosted.Events.Ring.{Numbered, Logs, Numbered-drop}

module _ {ℓ} {A : Type ℓ} where
  drop_all : (k : ℕ) (xs : List A) → length xs ≤ k → drop k xs ≡ []
  drop_all zero [] h = refl
  drop_all zero (x ∷ xs) h = absurd (omega arith)
  drop_all (suc k) [] h = refl
  drop_all (suc k) (x ∷ xs) h = drop_all k xs (omega arith)

first_of :
    (epoch : String) (n : ℕ) (es : List Event)
    → Numbered epoch n es
    → 0 < length es
    → (is_empty es ≡ false) × (first_seq es ≡ n + 1)
first_of epoch n [] h pos = absurd (omega arith)
first_of epoch n (e ∷ es) h pos = (refl, h.0)

-- The number before the ring's first event.
abbrev pub oldest : Bus → List Event → ℕ
oldest b all = length all - b.capacity

module _ (b : Bus) (all : List Event) (h : Logs b all) where
  ring-Numbered : Numbered b.epoch (oldest b all) b.ring
  ring-Numbered = rw h.newest (
      subst (λ n. Numbered b.epoch n (drop (oldest b all) all)) (omega arith)
        (Numbered-drop b.epoch (oldest b all) 0 all h.numbered (omega arith)))

  ring_length : length b.ring ≡ length all - (oldest b all)
  ring_length = ap length h.newest ∙ length-drop (oldest b all) all

  -- Where something was published, the ring has a first event.
  first_event : 0 < length all → (is_empty b.ring ≡ false) × (first_seq b.ring ≡ (oldest b all) + 1)
  first_event some_event =
      first_of b.epoch (oldest b all) b.ring ring-Numbered (omega (arith, ring_length, h.positive))

  module _ (seq : ℕ) where
    up_to_date : length all ≤ seq → backlog b.epoch seq false b ≡ ([], none)
    unfolding backlog
    up_to_date le = ground (arith, eq_refl b.epoch, h.counted)

    from_ring :
        seq < length all
        → (oldest b all) ≤ seq
        → drop (seq + 1 - first_seq b.ring) b.ring ≡ drop seq all
    from_ring missed kept =
        let (_, first) = first_event (omega arith) in
        let k : seq + 1 - first_seq b.ring ≡ seq - (oldest b all) = omega (arith, first) in
        let e : (oldest b all) + (seq - (oldest b all)) ≡ seq = omega arith in
        rw (k, h.newest)
          (drop-drop (seq - (oldest b all)) (oldest b all) all ∙ ap (λ n. drop n all) e)

    resumed :
        seq < length all → (oldest b all) ≤ seq → backlog b.epoch seq false b ≡ (drop seq all, none)
    unfolding backlog
    resumed missed kept =
        let (present, first) = first_event (omega arith) in
        ground (arith, eq_refl b.epoch, h.counted, present, first, from_ring missed kept)

    gapped :
        seq < (oldest b all) → backlog b.epoch seq false b ≡ (drop (oldest b all) all, some gap)
    unfolding backlog
    gapped lost =
        let (present, first) = first_event (omega arith) in
        ground (arith, eq_refl b.epoch, h.counted, present, first, h.newest)

    -- A subscriber of this epoch that has the events up to `seq` is given exactly the published
    -- events after `seq`, while the ring still holds them all; otherwise it is told of the gap
    -- and given all that the ring holds.
    pub backlog_lem : backlog b.epoch seq false b ≡ (
        if leb (oldest b all) seq
        then (drop seq all, none)
        else (drop (oldest b all) all, some gap))
    backlog_lem = elim (Bool-cases (leb (oldest b all) seq)) [
      | inr lost ↦ rw lost (gapped (ground arith))
      | inl kept ↦ rw kept (elim (Bool-cases (ltb seq (length all))) [
        | inl missed ↦ resumed (ground arith) (ground arith)
        | inr none_missed ↦
            up_to_date (ground arith)
            ∙ ap (λ es. (es, none)) (sym (drop_all seq all (ground arith)))
      ])
    ]

  -- A subscriber of another run of the daemon is told so, and given all that the ring holds.
  pub other_epoch :
      (epoch : String) (seq : ℕ)
      → epoch ≢ b.epoch
      → backlog epoch seq false b ≡ (drop (oldest b all) all, some new_epoch)
  unfolding backlog
  other_epoch epoch seq ne = ground (arith, eq_iff epoch b.epoch, h.newest)

position_lem :
    (epoch : String) (n q : ℕ) (es : List Event)
    → Numbered epoch n es
    → n + length es ≡ q
    → position q es + length es ≡ q
position_lem epoch n q [] h e = omega arith
position_lem epoch n q (x ∷ es) h e = omega (arith, h.0)

module _ (b : Bus) (all : List Event) (h : Logs b all) where
  ring_position : position b.seq b.ring + length b.ring ≡ b.seq
  ring_position =
      position_lem b.epoch (oldest b all) b.seq b.ring (ring-Numbered b all h)
        (omega (arith, ring_length b all h, h.counted))

  kept_position :
      (seq : ℕ) → seq < length all → position b.seq (drop seq all) + length (drop seq all) ≡ b.seq
  kept_position seq missed =
      position_lem b.epoch seq b.seq (drop seq all)
        (subst (λ n. Numbered b.epoch n (drop seq all)) (omega arith)
          (Numbered-drop b.epoch seq 0 all h.numbered (omega arith)))
        (omega (arith, length-drop seq all, h.counted))

  whole_ring : position b.seq (drop (oldest b all) all) + length (drop (oldest b all) all) ≡ b.seq
  whole_ring = subst (λ es. position b.seq es + length es ≡ b.seq) h.newest ring_position

  after : (seq : ℕ) → position b.seq (drop seq all) + length (drop seq all) ≡ b.seq
  after seq = elim (Bool-cases (ltb seq (length all))) [
    | inl missed ↦ kept_position seq (ground arith)
    | inr none_missed ↦ rw (drop_all seq all (ground arith)) (omega arith)
  ]

  same_epoch :
      (seq : ℕ) → let r = backlog b.epoch seq false b in position b.seq r.0 + length r.0 ≡ b.seq
  same_epoch seq = elim (Bool-cases (leb (oldest b all) seq)) [
    | inl kept ↦ rw (backlog_lem b all h seq, kept) (after seq)
    | inr lost ↦ rw (backlog_lem b all h seq, lost) whole_ring
  ]

  -- On every branch of `Subscribe` the position that it returns is the number of the event before
  -- the backlog: the position and the backlog's length add up to the bus's last number.
  pub subscribe_position :
      (epoch : String) (seq : ℕ) (from_start : Bool)
      → let r = (subscribe epoch seq from_start b).0 in r.at + length r.missed ≡ b.seq
  unfolding subscribe
  subscribe_position epoch seq true = unfold backlog in ring_position
  subscribe_position epoch seq false = elim (Bool-cases (str_eq epoch b.epoch)) [
    | inr other ↦
        rw (other_epoch b all h epoch seq (ground (arith, eq_iff epoch b.epoch))) whole_ring
    | inl same ↦ rw ((eq_iff epoch b.epoch).0 same) (same_epoch seq)
  ]
