-- ===== src/Vm/ConsoleLog/Capped.antt =====
-- The sizes of the two segments of a console log, through writes, rotations and failures.
use micro_hosted.Prelude.{
  ℕ, ◌+◌, ◌-◌, ◌≤◌, ◌≡◌, refl, Bool, true, none, some, List, [], ◌∷◌, length, take, length-append,
  length-drop, length-take-le, arith, ok, Bool-cases, inl, inr, ◌⊎◌, ◌∙◌, subst,
}
use micro_hosted.Vm.ConsoleLog.{
  Bytes, Files, Disk, State, content, clip, make_room, store, rotate, write, close,
  open_console_log, reopen_console_log, console_log_max,
}

-- Both segments are within the cap, and an open log knows the size of the live one.
pub record IsCapped (s : State) : Type 0 where
  pub live : length (content s.files.live) ≤ s.log.max
  pub rotated : length (content s.files.rotated) ≤ s.log.max
  pub size : s.log.is_open ≡ true → s.log.size ≡ length (content s.files.live)

pub length-clip : (max : ℕ) (p : Bytes) → length (clip max p) ≤ max
length-clip max p = ground (arith, length-drop (length p - max) p)

make_room-IsCapped : (d : Disk) (p : Bytes) (s : State) → IsCapped s → IsCapped (make_room d p s)
unfolding rotate
make_room-IsCapped d p s c = record {
  live = ground (arith, c.live);
  rotated = ground (arith, c.live, c.rotated);
  size = λ is_open. ground (arith, c.size);
}

-- After a rotation there is room for any write within the cap.
make_room_fits :
    (d : Disk) (p : Bytes) (s : State)
    → length p ≤ s.log.max
    → (make_room d p s).log.is_open ≡ true
    → (make_room d p s).log.size + length p ≤ (make_room d p s).log.max
unfolding rotate
make_room_fits d p s small is_open = ground arith

make_room-max : (d : Disk) (p : Bytes) (s : State) → (make_room d p s).log.max ≡ s.log.max
unfolding rotate
make_room-max d p s = ground arith

store-IsCapped :
    (d : Disk) (p : Bytes) (s : State)
    → IsCapped s
    → (s.log.is_open ≡ true → s.log.size + length p ≤ s.log.max)
    → IsCapped (store d p s)
store-IsCapped d p s c fits =
    let longer = length-append (content s.files.live) (take d.room p) in
    let shorter = length-take-le d.room p in
    record {
      live = ground (arith, longer, shorter, fits, c.size, c.live);
      rotated = ground (arith, c.rotated);
      size = λ is_open. ground (arith, longer, c.size);
    }

write-IsCapped : (d : Disk) (p : Bytes) (s : State) → IsCapped s → IsCapped ((write d p s).1)
unfolding write
write-IsCapped d p s c =
    let q = clip s.log.max p in
    let room = make_room d q s in
    let stored =
      store-IsCapped d q room (make_room-IsCapped d q s c)
        (make_room_fits d q s (length-clip s.log.max p)) in
    elim (Bool-cases s.log.is_open) [
      | inl is_open ↦ subst IsCapped (ground (arith, is_open)) stored
      | inr closed ↦ subst IsCapped (ground (arith, closed)) c
    ]

-- What happens to an open log.
pub data Op : Type 0 where
  writes : Disk → Bytes → Op
  closes : Op

abbrev pub apply : Op → State → State
apply (writes d p) s = (write d p s).1
apply closes s = close s

unfoldable pub run : List Op → State → State
run [] s = s
run (o ∷ os) s = run os (apply o s)

write-max : (d : Disk) (p : Bytes) (s : State) → ((write d p s).1).log.max ≡ s.log.max
unfolding write
write-max d p s = ground (arith, make_room-max d (clip s.log.max p) s)

close-IsCapped : (s : State) → IsCapped s → IsCapped (close s)
unfolding close
close-IsCapped s c = record { live = c.live; rotated = c.rotated; size = λ is_open. cc is_open }

run-IsCapped :
    (os : List Op) (s : State) → IsCapped s → IsCapped (run os s) × ((run os s).log.max ≡ s.log.max)
unfolding run close
run-IsCapped [] s c = (c, refl)
run-IsCapped (writes d p ∷ os) s c =
    let (capped, same) = run-IsCapped os ((write d p s).1) (write-IsCapped d p s c) in
    (capped, same ∙ write-max d p s)
run-IsCapped (closes ∷ os) s c = run-IsCapped os (close s) (close-IsCapped s c)

write_reports : (d : Disk) (p : Bytes) (s : State) → (write d p s).0 ≡ length p
unfolding write
write_reports d p s = ground arith

abbrev anew : State
anew = record {
  log = record { is_open = true; size = 0; max = console_log_max };
  files = record { live = some []; rotated = none };
}

pub open_state :
    (removes : Bool) (d : Disk) (files : Files) (s : State)
    → open_console_log removes d files ≡ ok s
    → anew ≡ s
unfolding open_console_log
open_state removes d files s h = ground arith

abbrev taken_up : Files → State
taken_up files = record {
  log = record { is_open = true; size = length (content files.live); max = console_log_max };
  files = record { live = some (content files.live); rotated = files.rotated };
}

reopen_state :
    (d : Disk) (files : Files) (s : State) → reopen_console_log d files ≡ ok s → taken_up files ≡ s
unfolding reopen_console_log
reopen_state d files s h = ground arith

opened-IsCapped :
    (d : Disk) (removes : Bool) (files : Files) (s : State)
    → (open_console_log removes d files ≡ ok s)
      ⊎ ((reopen_console_log d files ≡ ok s)
          × ((length (content files.live) ≤ console_log_max)
              × (length (content files.rotated) ≤ console_log_max)))
    → IsCapped s × (s.log.max ≡ console_log_max)
opened-IsCapped d removes files s (inl opened) =
    subst (λ t. IsCapped t × (t.log.max ≡ console_log_max)) (open_state removes d files s opened)
      (record { live = omega arith; rotated = omega arith; size = λ _. refl }, refl)
opened-IsCapped d removes files s (inr (opened, (live, rotated))) =
    subst (λ t. IsCapped t × (t.log.max ≡ console_log_max)) (reopen_state d files s opened)
      (record { live = live; rotated = rotated; size = λ _. refl }, refl)

-- From a log that is opened anew, or taken up again with both segments within the cap, any writes
-- and closes, whatever fails on the way, leave at most twice console_log_max bytes, at most half of
-- them in each segment; and a write always reports that it took everything.
pub log_capped :
    (os : List Op) (d : Disk) (removes : Bool) (files : Files) (s : State)
    → (open_console_log removes d files ≡ ok s)
      ⊎ ((reopen_console_log d files ≡ ok s)
          × ((length (content files.live) ≤ console_log_max)
              × (length (content files.rotated) ≤ console_log_max)))
    → (length (content (run os s).files.live) ≤ console_log_max)
      × ((length (content (run os s).files.rotated) ≤ console_log_max)
          × ((disk : Disk) (p : Bytes) → (write disk p (run os s)).0 ≡ length p))
log_capped os d removes files s opened =
    let (capped, same) = run-IsCapped os s (opened-IsCapped d removes files s opened).0 in
    let cap = same ∙ (opened-IsCapped d removes files s opened).1 in
    (
      omega (arith, capped.live, cap),
      (omega (arith, capped.rotated, cap), λ disk p. write_reports disk p (run os s)),
    )
