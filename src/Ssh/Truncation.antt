-- ===== src/Ssh/Truncation.antt =====
-- `TruncateOutput` of internal/controller/ssh.go, on lines.
use vm_file_restore_operator.Base.{
  ◌≡◌, ◌≤◌, ◌<◌, ◌-◌, refl, sym, ◌∙◌, ap, inl, inr, ℕ, zero, suc, String, ◌<>◌, false, List, [],
  ◌∷◌, leb, leb→le, length, drop, length-drop, All, Bool-cases, arith, eq_iff, nil-append,
  append_assoc, append-nil,
}
use vm_file_restore_operator.Base.Texts.{is_empty, lines, join_lines}
use vm_file_restore_operator.Base.Texts.Laws.{
  join_lines-lines, lines-join_lines, lines-Unbroken, Unbroken,
}
use vm_file_restore_operator.Ssh.{truncate_output}

drop-Unbroken : (n : ℕ) (ps : List String) → All Unbroken ps → All Unbroken (drop n ps)
drop-Unbroken zero ps h = h
drop-Unbroken (suc n) [] h = tt
drop-Unbroken (suc n) (p ∷ ps) h = drop-Unbroken n ps h.1

split_of_join : (ps : List String) → All Unbroken ps → 0 < length ps → lines (join_lines ps) ≡ ps
split_of_join [] h k = absurd (omega arith)
split_of_join (p ∷ ps) h k = lines-join_lines p ps h

-- The lines of the truncated output are the last ones of the output, at most `n` of them, and all
-- of them where there are no more. The output is not empty and `n` is at least 1.
pub truncate_output-lines :
    (output : String) (n : ℕ)
    → is_empty output ≡ false
    → 1 ≤ n
    → (lines (truncate_output output n) ≡ drop (length (lines output) - n) (lines output))
      × (length (lines (truncate_output output n)) ≤ n)
unfolding truncate_output
truncate_output-lines output n h k = elim (Bool-cases (leb (length (lines output)) n)) [
  | inl short ↦
      let fits : length (lines output) - n ≡ 0 = omega (arith, leb→le _ _ short) in
      rw (h, short) (rw fits refl, leb→le _ _ short)
  | inr long ↦
      let e =
        split_of_join (drop (length (lines output) - n) (lines output))
          (drop-Unbroken _ _ (lines-Unbroken output))
          (rw (length-drop (length (lines output) - n) (lines output)) (ground arith)) in
      rw (h, long)
        (rw e (refl, rw (length-drop (length (lines output) - n) (lines output)) (omega arith)))
]

join_lines-drop :
    (n : ℕ) (ps : List String)
    → (before : String) × (before <> join_lines (drop n ps) ≡ join_lines ps)
unfolding join_lines
join_lines-drop zero ps = ("", nil-append _)
join_lines-drop (suc n) [] = ("", nil-append _)
join_lines-drop (suc zero) (p ∷ []) = (p, append-nil p)
join_lines-drop (suc (suc n)) (p ∷ []) = (p, append-nil p)
join_lines-drop (suc n) (p ∷ q ∷ ps) =
    let (before, e) = join_lines-drop n (q ∷ ps) in
    (
      p <> ("\n" <> before),
      append_assoc p ("\n" <> before) _
          ∙ ap (λ t. p <> t) (append_assoc "\n" before _ ∙ ap (λ t. "\n" <> t) e),
    )

-- What is left is a suffix of the output.
pub truncate_output-suffix :
    (output : String) (n : ℕ) → (before : String) × (before <> truncate_output output n ≡ output)
unfolding truncate_output
truncate_output-suffix output n = elim (Bool-cases (is_empty output)) [
  | inl empty ↦ ("", rw empty (nil-append "" ∙ sym ((eq_iff output "").0 empty)))
  | inr filled ↦ elim (Bool-cases (leb (length (lines output)) n)) [
    | inl short ↦ ("", rw (filled, short) (nil-append output))
    | inr long ↦
        let (before, e) = join_lines-drop (length (lines output) - n) (lines output) in
        (before, rw (filled, long) (e ∙ join_lines-lines output))
  ]
]
