-- ===== src/Vm/DiskGuard/Budget.antt =====
-- The bytes that a budgetReader lets through.
use micro_hosted.Prelude.{
  ℕ, zero, suc, ◌+◌, ◌-◌, ◌≤◌, ◌<◌, min, true, ◌≡◌, ◌∙◌, refl, ap, some, List, [], ◌∷◌, ◌++◌, leb,
  if◌then◌else◌, arith, length, take, drop, length-drop, length-take-le, take-nil,
}
use micro_hosted.Vm.DiskGuard.{ReadOutcome, ended, over_budget, read, copy}

-- Every read asks for something, and the reader beneath gives something.
unfoldable pub Progresses : List (ℕ × ℕ) → Type 0
Progresses [] = true ≡ true
Progresses ((size, grant) ∷ reads) = (0 < size) × ((0 < grant) × Progresses reads)

length-take-drop : (n : ℕ) (bs : List ℕ) → length (take n bs) + length (drop n bs) ≡ length bs
length-take-drop zero bs = omega arith
length-take-drop (suc n) [] = omega arith
length-take-drop (suc n) (b ∷ bs) = omega (arith, length-take-drop n bs)

-- A part, and then up to the rest of the budget of what follows it.
take_parts :
    (n l : ℕ) (bs : List ℕ)
    → n ≤ l
    → take n bs ++ take (l - length (take n bs)) (drop n bs) ≡ take l bs
take_parts zero l bs h = ap (λ i. take i bs) (omega arith)
take_parts (suc n) zero bs h = absurd (omega arith)
take_parts (suc n) (suc l) [] h = take-nil (suc l - 0)
take_parts (suc n) (suc l) (b ∷ bs) h =
    let shift : suc l - suc (length (take n bs)) ≡ l - length (take n bs) = omega arith in
    ap (λ cs. b ∷ cs)
      (ap (λ i. take n bs ++ take i (drop n bs)) shift ∙ take_parts n l bs (omega (arith, h)))

-- How a copy ends: at the end of the data, or over the budget.
abbrev pub ending : ℕ → List ℕ → ReadOutcome
ending l bs = if leb (length bs) l then ended else over_budget

more_ending :
    (n l : ℕ) (bs : List ℕ) → n ≤ l → ending (l - length (take n bs)) (drop n bs) ≡ ending l bs
more_ending n l bs h = ground (arith, length-take-drop n bs, length-take-le n bs)

part_bounds :
    (size grant left : ℕ)
    → 0 < size
    → 0 < grant
    → (0 < min grant (min size (suc left))) × (min grant (min size (suc left)) ≤ suc left)
part_bounds size grant left asks gets = (omega arith, omega arith)

copy_part :
    (size grant left : ℕ) (reads : List (ℕ × ℕ)) (x : ℕ) (xs : List ℕ)
    → let n = min grant (min size (suc left)) in
      let later =
        copy reads
          (record { data_left = drop n (x ∷ xs); left = suc left - length (take n (x ∷ xs)) }) in
      copy ((size, grant) ∷ reads) (record { data_left = x ∷ xs; left = suc left })
      ≡ (take n (x ∷ xs) ++ later.0, later.1)
unfolding copy read
copy_part size grant left reads x xs = ground arith

-- An upload that is read to its end, in reads that ask for something and get something, gives the
-- bytes up to the budget; it ends well exactly when it is no larger than the budget, and is refused
-- otherwise.
pub copy_lem :
    (reads : List (ℕ × ℕ)) (upload : List ℕ) (left : ℕ)
    → Progresses reads
    → length upload < length reads
    → copy reads (record { data_left = upload; left = left })
      ≡ (take left upload, some (ending left upload))
unfolding copy read Progresses
copy_lem [] upload left progress enough = absurd (omega (arith, enough))
copy_lem ((size, grant) ∷ reads) [] zero progress enough = refl
copy_lem ((size, grant) ∷ reads) (x ∷ xs) zero progress enough = ground arith
copy_lem ((size, grant) ∷ reads) [] (suc left) progress enough = ground arith
copy_lem ((size, grant) ∷ reads) (x ∷ xs) (suc left) (asks, (gets, progress)) enough =
    let n = min grant (min size (suc left)) in
    let (some_part, within) = part_bounds size grant left asks gets in
    let left_over = length-drop n (x ∷ xs) in
    let rest =
      copy_lem reads (drop n (x ∷ xs)) (suc left - length (take n (x ∷ xs))) progress
        (omega (arith, some_part, enough, left_over)) in
    copy_part size grant left reads x xs
    ∙ cc (rest, take_parts n (suc left) (x ∷ xs) within, more_ending n (suc left) (x ∷ xs) within)
