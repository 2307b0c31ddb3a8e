-- ===== src/Vm/ConsoleLog/Tail.antt =====
-- The tail of a console log (ConsoleTail) and what the machine printed.
use micro_hosted.Prelude.{
  ℕ, ◌+◌, ◌-◌, ◌≤◌, ◌<◌, ◌≡◌, refl, sym, ap, ◌∙◌, Bool, true, not, Option, none, some, List, [],
  ◌∷◌, ◌++◌, ltb, leb, subst, ltb→lt, append_assoc, append-nil, if◌then◌else◌, length, take, drop,
  length-append, length-drop, drop-append_left, drop-append_right, take_all, take-drop, arith, ok,
  Bool-cases, inl, inr, ◌⊎◌,
}
use micro_hosted.Vm.ConsoleLog.{
  Bytes, Files, Disk, State, content, clip, make_room, store, rotate, write, read_tail,
  open_console_log, console_tail, console_log_max, tail_of,
}
use micro_hosted.Vm.ConsoleLog.Capped.{open_state}

abbrev pub last : ℕ → Bytes → Bytes
last n bs = drop (length bs - n) bs

last_within : (n : ℕ) (a b : Bytes) → n ≤ length b → last n (a ++ b) ≡ last n b
last_within n a b within =
    drop-append_right a b (length (a ++ b) - n) (length b - n) (omega (arith, length-append a b))

last_beyond : (n : ℕ) (a b : Bytes) → length b ≤ n → last n (a ++ b) ≡ last (n - length b) a ++ b
last_beyond n a b beyond =
    drop-append_left (length (a ++ b) - n) a b (omega (arith, length-append a b))
    ∙ ap (λ i. drop i a ++ b) (omega (arith, length-append a b))

read_tail-last : (segment : Option Bytes) (n : ℕ) → read_tail segment n ≡ last n (content segment)
unfolding read_tail
read_tail-last none n = ground arith
read_tail-last (some bs) n = refl

last_all : (n : ℕ) (bs : Bytes) → length bs ≤ n → last n bs ≡ bs
last_all n bs short =
    let none_dropped : length bs - n ≡ 0 = omega (arith, short) in ap (λ i. drop i bs) none_dropped

-- A tail is the end of the two segments in their order.
tail_of-last :
    (files : Files) (n : ℕ) → tail_of files n ≡ last n (content files.rotated ++ content files.live)
unfolding tail_of
tail_of-last files n =
    let live = content files.live in
    let seen = ap length (read_tail-last files.live n) in
    elim (Bool-cases (leb n (length live))) [
      | inl within ↦ rw (read_tail-last files.live n) (
          ground (
            arith,
            length-drop (length live - n) live,
            within,
            last_within n (content files.rotated) live,
          ))
      | inr beyond ↦
          rw (read_tail-last files.live n, last_all n live (ground (arith, beyond)))
            (ground (
              arith,
              beyond,
              read_tail-last files.rotated (n - length live),
              last_beyond n (content files.rotated) live,
            ))
    ]

-- What a machine prints, write by write, on a disk that works.
abbrev works : Bytes → Disk
works p = record { renames = true; opens = true; room = length p }

unfoldable pub print : List Bytes → State → State
print [] s = s
print (p ∷ ps) s = print ps ((write (works p) p s).1)

-- All that was printed, whatever the log keeps of it.
unfoldable pub printed : List Bytes → Bytes
printed [] = []
printed (p ∷ ps) = p ++ printed ps

-- The log ends as the history does, for a segment's worth of bytes.
record Holds (history : Bytes) (s : State) : Type 0 where
  is_open : s.log.is_open ≡ true
  cap : s.log.max ≡ console_log_max
  size : s.log.size ≡ length (content s.files.live)
  agree :
      (n : ℕ)
      → n ≤ console_log_max
      → last n (content s.files.rotated ++ content s.files.live) ≡ last n history

-- A write that fits, and one that rotates the log.
abbrev appended : Bytes → State → State
appended q s = record {
  log = record { is_open = true; size = s.log.size + length q; max = s.log.max };
  files = record { live = some (content s.files.live ++ q); rotated = s.files.rotated };
}

abbrev turned : Bytes → State → State
turned q s = record {
  log = record { is_open = true; size = length q; max = s.log.max };
  files = record { live = some q; rotated = s.files.live };
}

store-works :
    (d : Disk) (q : Bytes) (s : State)
    → d.renames ≡ true
    → d.opens ≡ true
    → take d.room q ≡ q
    → s.log.is_open ≡ true
    → store d q (make_room d q s)
      ≡ (if ltb s.log.max (s.log.size + length q) then turned q s else appended q s)
unfolding rotate
store-works d q s renames opens whole is_open =
    elim (Bool-cases (ltb s.log.max (s.log.size + length q))) [
      | inl over ↦ ground (arith, over, whole, renames, opens)
      | inr under ↦ ground (arith, under, whole, is_open)
    ]

write-works :
    (p : Bytes) (s : State)
    → s.log.is_open ≡ true
    → (write (works p) p s).1 ≡ (
        if ltb s.log.max (s.log.size + length (clip s.log.max p))
        then turned (clip s.log.max p) s
        else appended (clip s.log.max p) s)
unfolding write
write-works p s is_open =
    let q = clip s.log.max p in
    let whole = take_all (length p) q (ground (arith, length-drop (length p - s.log.max) p)) in
    let by : Bool → ℕ × State = λ b.
      if not b then (length p, s) else (length p, store (works p) q (make_room (works p) q s)) in
    ap (λ b. (by b).1) is_open ∙ store-works (works p) q s refl refl whole is_open

-- What `clip` leaves of a write: all of it, or its end, a segment long.
clip_cases :
    (max : ℕ) (p : Bytes)
    → (clip max p ≡ p) ⊎ ((length (clip max p) ≡ max) × (p ≡ take (length p - max) p ++ clip max p))
clip_cases max p = elim (Bool-cases (ltb max (length p))) [
  | inr fits ↦ inl (ground (arith, fits))
  | inl over ↦ inr (
    ground (arith, over, length-drop (length p - max) p),
    sym (
        ap (λ q. take (length p - max) p ++ q) (ground (arith, over))
        ∙ take-drop (length p - max) p),
  )
]

-- A write after what is kept, and after the history.
last-append :
    (n : ℕ) (kept history p q : Bytes)
    → (q ≡ p) ⊎ ((n ≤ length q) × ((c : Bytes) × (p ≡ c ++ q)))
    → (length q < n → last (n - length q) kept ≡ last (n - length q) history)
    → last n (kept ++ q) ≡ last n (history ++ p)
last-append n kept history p q (inr (long, (c, ends))) same =
    last_within n kept q long
    ∙ sym (last_within n (history ++ c) q long)
    ∙ ap (last n) (append_assoc history c q ∙ ap (λ t. history ++ t) (sym ends))
last-append n kept history p q (inl whole) same = elim (Bool-cases (leb n (length q))) [
  | inl within ↦
      last_within n kept q (ground (arith, within))
      ∙ sym (last_within n history q (ground (arith, within)))
      ∙ ap (λ t. last n (history ++ t)) whole
  | inr beyond ↦
      last_beyond n kept q (ground (arith, beyond))
      ∙ ap (λ t. t ++ q) (same (ground (arith, beyond)))
      ∙ sym (last_beyond n history q (ground (arith, beyond)))
      ∙ ap (λ t. last n (history ++ t)) whole
]

clipped_end :
    (n max : ℕ) (p : Bytes)
    → n ≤ max
    → (clip max p ≡ p) ⊎ ((n ≤ length (clip max p)) × ((c : Bytes) × (p ≡ c ++ clip max p)))
clipped_end n max p within = elim (clip_cases max p) [
  | inl whole ↦ inl whole
  | inr (long, ends) ↦ inr (omega (arith, long, within), (take (length p - max) p, ends))
]

write-Holds :
    (history p : Bytes) (s : State)
    → Holds history s
    → Holds (history ++ p) ((write (works p) p s).1)
write-Holds history p s h =
    let q = clip s.log.max p in
    let rotated = content s.files.rotated in
    let live = content s.files.live in
    elim (Bool-cases (ltb s.log.max (s.log.size + length q))) [
      | inl over ↦
          subst (Holds (history ++ p)) {x = turned q s}
            (sym (write-works p s h.is_open ∙ ground (arith, over)))
            (record {
              is_open = refl;
              cap = h.cap;
              size = refl;
              agree = λ n within.
                  last-append n live history p q
                    (clipped_end n s.log.max p (omega (arith, within, h.cap)))
                    (λ shorter.
                      sym (
                        last_within (n - length q) rotated live
                          (omega (arith, ltb→lt _ _ over, h.cap, h.size, within)))
                      ∙ h.agree (n - length q) (omega (arith, within)));
            })
      | inr under ↦
          subst (Holds (history ++ p)) {x = appended q s}
            (sym (write-works p s h.is_open ∙ ground (arith, under)))
            (record {
              is_open = refl;
              cap = h.cap;
              size = omega (arith, h.size, length-append live q);
              agree = λ n within.
                  ap (last n) (sym (append_assoc rotated live q))
                  ∙ last-append n (rotated ++ live) history p q
                      (clipped_end n s.log.max p (omega (arith, within, h.cap)))
                      (λ shorter. h.agree (n - length q) (omega (arith, within)));
            })
    ]

print-Holds :
    (history : Bytes) (ps : List Bytes) (s : State)
    → Holds history s
    → Holds (history ++ printed ps) (print ps s)
unfolding print printed
print-Holds history [] s h = subst (λ t. Holds t s) (sym (append-nil history)) h
print-Holds history (p ∷ ps) s h =
    subst (λ t. Holds t (print ps ((write (works p) p s).1))) (append_assoc history p (printed ps))
      (print-Holds (history ++ p) ps ((write (works p) p s).1) (write-Holds history p s h))

valid_tail :
    (files : Files) (n : ℕ)
    → 0 < n
    → n ≤ console_log_max
    → console_tail (some (some files)) n ≡ ok (tail_of files n)
unfolding console_tail
valid_tail files n some_bytes within = ground arith

-- On a disk that works, the tail of the console of a machine whose log was opened empty and then
-- took any writes is, for 1 to console_log_max bytes, exactly the last bytes of all that it
-- printed, however often the log rotated.
pub console_tail-last :
    (ps : List Bytes) (removes : Bool) (d : Disk) (files : Files) (s : State) (n : ℕ)
    → open_console_log removes d files ≡ ok s
    → 0 < n
    → n ≤ console_log_max
    → console_tail (some (some (print ps s).files)) n ≡ ok (last n (printed ps))
console_tail-last ps removes d files s n opened some_bytes within =
    let held = print-Holds [] ps s (
      subst (Holds []) (open_state removes d files s opened)
        (record { is_open = refl; cap = refl; size = refl; agree = λ k small. refl })) in
    let after = (print ps s).files in
    valid_tail after n some_bytes within ∙ ap ok (tail_of-last after n ∙ held.agree n within)
