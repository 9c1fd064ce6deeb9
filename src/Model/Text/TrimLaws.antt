-- ===== src/Model/Text/TrimLaws.antt =====
-- `trim` leaves nothing to trim.
use picasu.Prelude.{
  ◌≡◌, refl, ap, ◌∙◌, Bool, true, false, not, [], ◌∷◌, Bool-cases, inl, inr, arith,
}
use picasu.Model.Text.{Text}
use picasu.Model.Text.Trim.{is_whitespace, trim_start, drop_blank, trim_end, trim}

abbrev starts_plain : Text → Bool
starts_plain [] = true
starts_plain (c ∷ cs) = not (is_whitespace c)

trim_start-plain : (t : Text) → starts_plain (trim_start t) ≡ true
unfolding trim_start
trim_start-plain [] = refl
trim_start-plain (c ∷ cs) = elim (Bool-cases (is_whitespace c)) [
  | inl blank ↦ rw (blank, trim_start) (trim_start-plain cs)
  | inr plain ↦ rw (plain, trim_start) (rw plain refl)
]

plain-trim_start : (t : Text) → starts_plain t ≡ true → trim_start t ≡ t
unfolding trim_start
plain-trim_start [] h = refl
plain-trim_start (c ∷ cs) h =
    let plain : is_whitespace c ≡ false = ground arith in rw (plain, trim_start) refl

plain-trim_end : (t : Text) → starts_plain t ≡ true → starts_plain (trim_end t) ≡ true
unfolding trim_end
plain-trim_end [] h = refl
plain-trim_end (c ∷ cs) h = kept (trim_end cs)
  where
    kept : (ds : Text) → starts_plain (drop_blank c ds) ≡ true
    kept [] =
        let plain : is_whitespace c ≡ false = ground arith in rw (plain, drop_blank) (rw plain refl)
    kept (d ∷ ds) = h

trim_end-twice : (t : Text) → trim_end (trim_end t) ≡ trim_end t
unfolding trim_end
trim_end-twice [] = refl
trim_end-twice (c ∷ cs) = kept (trim_end cs) (trim_end-twice cs)
  where
    kept : (ds : Text) → trim_end ds ≡ ds → trim_end (drop_blank c ds) ≡ drop_blank c ds
    kept [] h = elim (Bool-cases (is_whitespace c)) [
      | inl blank ↦ rw (blank, drop_blank) refl
      | inr plain ↦ rw (plain, drop_blank) (rw (plain, drop_blank) refl)
    ]
    kept (d ∷ ds) h = ap (drop_blank c) h

pub trim-twice : (t : Text) → trim (trim t) ≡ trim t
unfolding trim
trim-twice t =
    ap trim_end (
      plain-trim_start (trim_end (trim_start t))
        (plain-trim_end (trim_start t) (trim_start-plain t)))
    ∙ trim_end-twice (trim_start t)
