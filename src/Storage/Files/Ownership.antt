-- ===== src/Storage/Files/Ownership.antt =====
-- backend/src/storage/files.rs: the gate of writes, and who sees what it lets through.
use picasu.Prelude.{◌≡◌, ◌↔◌, refl, Bool, true, Option, none, some, arith, Bool-cases, inl, inr}
use picasu.Model.Text.{Text}
use picasu.Model.Text.Table.{text_eq_iff}
use picasu.Process.DirAlbum.{PathBuf}
use picasu.Storage.Files.{
  PathClassification, Verdict, first_of, public, users_root, outside, personal, Roots,
  classify_path, visible_to, write_gate, denies, crosses, seen_by,
}

module _ (realpath : PathBuf → Option PathBuf) (exists : PathBuf → Bool) (caller : Text) where
  denied_iff :
      (k : PathClassification)
      → (denies realpath exists caller k ≡ none) ↔ (seen_by realpath exists caller k ≡ true)
  denied_iff public = (λ h. refl, λ h. refl)
  denied_iff outside = (λ h. refl, λ h. refl)
  denied_iff users_root = (λ h. absurd (ground arith), λ h. absurd (ground arith))
  denied_iff (personal owner) = (λ h. ground arith, λ h. ground arith)

  -- A pair that crosses has a side that is not the caller's.
  crosses-unseen :
      (k l : PathClassification)
      → crosses realpath exists k l ≡ true
      → seen_by realpath exists caller k ≡ true
      → seen_by realpath exists caller l ≡ true
      → ⊥
  crosses-unseen public l h a b = ground arith
  crosses-unseen outside l h a b = ground arith
  crosses-unseen users_root l h a b = ground arith
  crosses-unseen (personal owner) public h a b = ground arith
  crosses-unseen (personal owner) outside h a b = ground arith
  crosses-unseen (personal owner) users_root h a b = ground arith
  crosses-unseen (personal owner) (personal other) h a b =
      ground (arith, text_eq_iff owner caller, text_eq_iff other caller, text_eq_iff owner other)

  first_none : (a b : Verdict) → (first_of realpath exists a b ≡ none) ↔ ((a ≡ none) × (b ≡ none))
  first_none none b = (λ h. (refl, h), λ w. w.1)
  first_none (some why) b = (λ h. absurd (ground arith), λ w. absurd (ground arith))

  module _ (roots : Roots) where
    -- The caller sees the path, if there is one.
    abbrev pub Sees : Option PathBuf → Type 0
    Sees none = Unit
    Sees (some path) = visible_to realpath exists roots caller path ≡ true

    -- The write gate lets an operation through exactly if the caller sees each of its paths.
    pub write_gate_iff :
        (source dest : Option PathBuf)
        → (write_gate realpath exists roots caller source dest ≡ none) ↔ (Sees source × Sees dest)
    unfolding write_gate visible_to
    write_gate_iff none none = (λ h. (tt, tt), λ w. refl)
    write_gate_iff none (some d) =
        let k = denied_iff (classify_path realpath exists roots d) in
        (λ h. (tt, k.0 h), λ w. k.1 w.1)
    write_gate_iff (some s) none =
        let k = classify_path realpath exists roots s in
        let both = first_none (denies realpath exists caller k) none in
        (λ h. ((denied_iff k).0 (both.0 h).0, tt), λ w. both.1 ((denied_iff k).1 w.0, refl))
    write_gate_iff (some s) (some d) =
        let k = classify_path realpath exists roots s in
        let l = classify_path realpath exists roots d in
        let both = first_none (denies realpath exists caller k) (denies realpath exists caller l) in
        elim (Bool-cases (crosses realpath exists k l)) [
          | inl crossed ↦
              rw crossed
                (λ h. absurd (ground arith), λ w. absurd (crosses-unseen k l crossed w.0 w.1))
          | inr level ↦ rw level (
            λ h. ((denied_iff k).0 (both.0 h).0, (denied_iff l).0 (both.0 h).1),
            λ w. both.1 ((denied_iff k).1 w.0, (denied_iff l).1 w.1),
          )
        ]
